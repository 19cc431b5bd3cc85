-- ===== src/Tests/DnsCache.antt =====
-- Runs of src/node/dnscache.js.
use better_nodejs_vless_ws.Base.{List, [], ◌∷◌}
use better_nodejs_vless_ws.Base.Text.{Text, codes}
use better_nodejs_vless_ws.DnsCache.{DnsCache, Reply, error, addresses}
use better_nodejs_vless_ws.DnsCache.Answered.{Call, asked, replied, swept, cleared}

-- Two wait for one host, one for another, and one asks for a literal; the first lookup is answered; all is cleared
-- before the other is.
abbrev some_calls : List Call
some_calls =
    asked (codes "a.example") 1 10
    ∷ asked (codes "a.example") 2 10
    ∷ asked (codes "b.example") 3 11
    ∷ asked (codes "10.0.0.1") 4 11
    ∷ replied (codes "a.example") (addresses (codes "10.0.0.2" ∷ [])) 12
    ∷ asked (codes "a.example") 2 13
    ∷ swept 400
    ∷ cleared
    ∷ asked (codes "c.example") 2 401
    ∷ []

abbrev time_out : Text → Reply
time_out host = error (codes "ETIMEOUT")

abbrev none_yet : DnsCache
none_yet = record { cache = []; pending = [] }
