-- ===== src/Fuse/Reply.antt =====
-- What a handler of the FUSE file system of crates/pfs3-fuse/src/main.rs answers: a value, an error number,
-- or nothing where a panic ends it. The state is what the mutex guards; a handler holds the lock from
-- its first access to its end, so that handlers run one after the other.
use pfs.Prelude.{Bool, true, false, Option, none, some}
use pfs.Error.{Result, ok, err, panic}

pub data Errno : Type 0 where
  enoent eio enotdir eisdir eperm enotempty erange enotsup no_xattr : Errno

pub data Reply {ℓ} (A : Type ℓ) : Type ℓ where
  reply : A → Reply A
  error : Errno → Reply A
  died : Reply A

abbrev pub Handler {ℓ} : Type ℓ → Type ℓ → Type ℓ
Handler S A = S → Reply A × S

module _ {S A : Type 0} where
  abbrev pub answer : A → Handler S A
  answer a s = (reply a, s)

  abbrev pub fail : Errno → Handler S A
  fail e s = (error e, s)

  abbrev pub gets : (S → A) → Handler S A
  gets f s = (reply (f s), s)

  -- `let Some(x) = o else { reply.error(e); return; }`
  abbrev pub some_or : Option A → Errno → Handler S A
  some_or none e s = (error e, s)
  some_or (some a) e s = (reply a, s)

  -- `let Ok(x) = r else { reply.error(e); return; }`
  abbrev pub ok_or : Result A → Errno → Handler S A
  ok_or (ok a) e s = (reply a, s)
  ok_or (err x) e s = (error e, s)
  ok_or panic e s = (died, s)

  -- `r.unwrap_or(d)`, where a panic is one.
  abbrev pub ok_else : Result A → A → Handler S A
  ok_else (ok a) d s = (reply a, s)
  ok_else (err x) d s = (reply d, s)
  ok_else panic d s = (died, s)

module _ {S A B : Type 0} where
  abbrev pub continue : Reply A → (A → Handler S B) → Handler S B
  continue (reply a) f s = f a s
  continue (error e) f s = (error e, s)
  continue died f s = (died, s)

  infixl 5 ◌>>=◌ ◌>>◌
  abbrev pub ◌>>=◌ : Handler S A → (A → Handler S B) → Handler S B
  ◌>>=◌ m f s = let (r, s') = m s in continue r f s'

  abbrev pub ◌>>◌ : Handler S A → Handler S B → Handler S B
  m >> n = m >>= λ _. n

abbrev pub modify : {S : Type 0} → (S → S) → Handler S (Unit {0})
modify f s = (reply tt, f s)

-- `if !test { reply.error(e); return; }`
abbrev pub require : {S : Type 0} → Bool → Errno → Handler S (Unit {0})
require true e s = (reply tt, s)
require false e s = (error e, s)
