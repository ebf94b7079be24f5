-- ===== src/Verdict.antt =====
-- The truth values of an operation (dingdongditch/contract/verdict.py).
use dingdongditch.Prelude.Equality.{Eq}

pub data Verdict : Type 0 where
  verified not_verified execution_failed indeterminate : Verdict

pub Verdict-discrete : Discrete Verdict
Verdict-discrete = hlevel

instance unfoldable pub verdict_eq : Eq Verdict
verdict_eq = record { dec = Verdict-discrete }
