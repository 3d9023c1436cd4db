-- ===== src/Index/Hnsw/Run.antt =====
-- What a call on the graph does: it returns, fails, or outlasts the fuel of the search loop.
use embeddb.Index.{IndexError}

pub data Run (A : Type 0) : Type 0 where
  done : A → Run A
  failed : IndexError → Run A
  out_of_fuel : Run A

infixl 5 ◌>>=◌
abbrev pub ◌>>=◌ : {A B : Type 0} → Run A → (A → Run B) → Run B
done a >>= next = next a
failed e >>= next = failed e
out_of_fuel >>= next = out_of_fuel
