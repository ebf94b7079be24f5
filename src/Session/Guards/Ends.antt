-- ===== src/Session/Guards/Ends.antt =====
-- A program after a check of the backend, which returns from one record only.
use dingdongditch.Prelude.{Bool, true, false, ◌&&◌, if◌then◌else◌}
use dingdongditch.ReceiptChain.{Values}
use dingdongditch.Session.{SessionRecord, Host}
use dingdongditch.Session.Program.{Program, after, return, raise, read, assign, ask_many, ◌>>=◌}
use dingdongditch.Session.Guards.{active_backend, fail_terminal}
use dingdongditch.Session.Follows.{asked}
use dingdongditch.Session.Ends.{Ends, Holds}

module _ {values : Values} (host : Host values) where
  pub Ends-active {κ} :
      {B : Type κ} {P : B → SessionRecord values → Type 0} (k : Unit {0} → Program values B)
      {s : SessionRecord values}
      → Ends host P (k tt) (asked host 1 s)
      → Ends host P (active_backend host >>= k) s
  unfolding active_backend ◌>>=◌ after read ask_many return assign raise
  Ends-active {B = B} {P = P} k {s = s} p = record {
    ends = continue (s.has_backend && host.is_started s.answered);
  }
    where
      checked : Bool → Program values B
      checked there = (if there then return tt else fail_terminal host) >>= k

      continue :
          (there : Bool)
          → Holds host P ((checked there (asked host 1 s)).0) ((checked there (asked host 1 s)).1)
      continue true = p.ends
      continue false = tt
