-- ===== src/Session/Ending.antt =====
-- src/node/session.js: what the ends of a session do to its connection in the statistics.
use better_nodejs_vless_ws.Base.{
  ℕ, ◌+◌, ◌≡◌, refl, Bool, true, false, ◌&&◌, not, List, [], ◌∷◌, ◌++◌, arith, if_either, if_cases,
  map,
}
use better_nodejs_vless_ws.Session.{
  Session, Effect, Page, respond, open_connection, close_connection, destroy_client, resume_stream,
  destroy, finish, serve_decoy, on_drain, timer_effects, relay_effects, connection_effects,
}

abbrev opens_of : Effect → ℕ
opens_of (open_connection label) = 1
opens_of e = 0

abbrev closes_of : Effect → ℕ
closes_of close_connection = 1
closes_of e = 0

-- How often a connection is opened, and closed.
abbrev pub opens : List Effect → ℕ
opens [] = 0
opens (e ∷ es) = opens_of e + opens es

abbrev pub closes : List Effect → ℕ
closes [] = 0
closes (e ∷ es) = closes_of e + closes es

abbrev pub one_if : Bool → ℕ
one_if true = 1
one_if false = 0

-- 1 for a connection that is open.
abbrev pub live : Session → ℕ
live s = one_if (s.connected && not s.dead)

pub opens-append : (a b : List Effect) → opens (a ++ b) ≡ opens a + opens b
opens-append [] b = omega arith
opens-append (e ∷ es) b = omega (arith, opens-append es b)

pub closes-append : (a b : List Effect) → closes (a ++ b) ≡ closes a + closes b
closes-append [] b = omega arith
closes-append (e ∷ es) b = omega (arith, closes-append es b)

-- Nothing is opened, and a connection that is no longer open was closed. `before`, `connected` and
-- `started` are what is said of the session before.
pub record Neutral (before : ℕ) (connected started : Bool) (r : Session × List Effect)
    : Type 0 where
  pub none_opened : opens r.1 ≡ 0
  pub balance : closes r.1 + live r.0 ≡ before
  pub same_connected : r.0.connected ≡ connected
  pub same_started : r.0.vless_started ≡ started

abbrev pub IsNeutral : Session → Session × List Effect → Type 0
IsNeutral s r = Neutral (live s) s.connected s.vless_started r

pub stay-IsNeutral : (s : Session) → IsNeutral s (s, [])
stay-IsNeutral s = record {
  none_opened = refl;
  balance = omega arith;
  same_connected = refl;
  same_started = refl;
}

ended_counts :
    (t r c : Bool)
    → let es = timer_effects t ++ (destroy_client ∷ (relay_effects r ++ connection_effects c)) in
      (opens es ≡ 0) × (closes es ≡ one_if c)
ended_counts true true true = (refl, refl)
ended_counts true true false = (refl, refl)
ended_counts true false true = (refl, refl)
ended_counts true false false = (refl, refl)
ended_counts false true true = (refl, refl)
ended_counts false true false = (refl, refl)
ended_counts false false true = (refl, refl)
ended_counts false false false = (refl, refl)

pub destroy-IsNeutral : (s : Session) → IsNeutral s (destroy s)
unfolding destroy
destroy-IsNeutral s =
    if_cases (IsNeutral s) s.dead (λ _. stay-IsNeutral s)
      (λ alive.
        let (o, c) = ended_counts s.has_timer s.has_relay s.connected in
        record {
          none_opened = o;
          balance = balanced s.connected s.dead alive _ c;
          same_connected = refl;
          same_started = refl;
        })
  where
    balanced :
        (connected dead : Bool)
        → dead ≡ false
        → (n : ℕ) → n ≡ one_if connected
        → n + one_if (connected && not true) ≡ one_if (connected && not dead)
    balanced true false h n e = omega (arith, e)
    balanced false false h n e = omega (arith, e)
    balanced connected true h n e = absurd cc

-- One more effect in front, of another kind.
pub cons-IsNeutral :
    (s : Session) (e : Effect) (r : Session × List Effect)
    → opens_of e ≡ 0
    → closes_of e ≡ 0
    → IsNeutral s r
    → IsNeutral s (r.0, e ∷ r.1)
cons-IsNeutral s e r o c n = record {
  none_opened = omega (arith, o, n.none_opened);
  balance = omega (arith, c, n.balance);
  same_connected = n.same_connected;
  same_started = n.same_started;
}

pub finish-IsNeutral :
    (s : Session) (e : Effect) → opens_of e ≡ 0 → closes_of e ≡ 0 → IsNeutral s (finish s e)
unfolding finish
finish-IsNeutral s e o c = cons-IsNeutral s e (destroy s) o c (destroy-IsNeutral s)

pub decoy-IsNeutral : (s : Session) (status : ℕ) → IsNeutral s (serve_decoy s status)
unfolding serve_decoy
decoy-IsNeutral s status = finish-IsNeutral s (respond status Page.decoy_page []) refl refl

resume_counts :
    (ns : List ℕ) → (opens (map resume_stream ns) ≡ 0) × (closes (map resume_stream ns) ≡ 0)
resume_counts [] = (refl, refl)
resume_counts (n ∷ ns) = (omega (arith, (resume_counts ns).0), omega (arith, (resume_counts ns).1))

pub on_drain-IsNeutral : (s : Session) → IsNeutral s (on_drain s)
unfolding on_drain
on_drain-IsNeutral s = if_either (IsNeutral s) s.dead (stay-IsNeutral s) (record {
  none_opened = (resume_counts s.paused).0;
  balance = omega (arith, (resume_counts s.paused).1);
  same_connected = refl;
  same_started = refl;
})
