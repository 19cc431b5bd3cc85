-- ===== src/Tests/Uuid.antt =====
-- A run on the text of a UUID.
use better_nodejs_vless_ws.Base.{◌≡◌, refl, some, arith}
use better_nodejs_vless_ws.Users.Uuid.{format_uuid, uuid_to_bytes}
use better_nodejs_vless_ws.Users.Uuid.RoundTrip.{uuid_to_bytes-format_uuid}
use better_nodejs_vless_ws.Tests.Data.{some_uuid}

uuid_to_bytes-format_uuid_example : uuid_to_bytes (format_uuid some_uuid) ≡ some some_uuid
uuid_to_bytes-format_uuid_example = uuid_to_bytes-format_uuid some_uuid refl (
  omega arith,
  (
    omega arith,
    (
      omega arith,
      (
        omega arith,
        (
          omega arith,
          (
            omega arith,
            (
              omega arith,
              (
                omega arith,
                (
                  omega arith,
                  (
                    omega arith,
                    (
                      omega arith,
                      (omega arith, (omega arith, (omega arith, (omega arith, (omega arith, tt))))),
                    ),
                  ),
                ),
              ),
            ),
          ),
        ),
      ),
    ),
  ),
)
