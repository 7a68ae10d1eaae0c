-- ===== src/Locked/Accesses.antt =====
-- C code that reads and writes shared variables and takes a lock, an access at a time.
use open_pa.Base.{ℕ}

-- What is left of a run: its result, or the next access and what follows it.
pub data Program (A : Type 0) : Type 0 where
  return : A → Program A
  load : (ptr : ℕ) → (ℕ → Program A) → Program A
  store : (ptr v : ℕ) → Program A → Program A
  lock unlock : Program A → Program A

infixl 5 ◌>>=◌ ◌>>◌
abbrev pub ◌>>=◌ : {A B : Type 0} → Program A → (A → Program B) → Program B
return a >>= f = f a
load ptr k >>= f = load ptr (λ v. k v >>= f)
store ptr v k >>= f = store ptr v (k >>= f)
lock k >>= f = lock (k >>= f)
unlock k >>= f = unlock (k >>= f)

abbrev pub ◌>>◌ : {B : Type 0} → Program (Unit {0}) → Program B → Program B
m >> k = m >>= λ _. k

abbrev pub pure : {A : Type 0} → A → Program A
pure = return

-- `ptr->v`, and `ptr->v = v`.
abbrev pub get : ℕ → Program ℕ
get ptr = load ptr (λ v. return v)

abbrev pub set : (ptr v : ℕ) → Program (Unit {0})
set ptr v = store ptr v (return tt)
