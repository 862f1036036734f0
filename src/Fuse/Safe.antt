-- ===== src/Fuse/Safe.antt =====
-- About handlers that keep a property of the state: the rules for their steps.
use pfs.Prelude.{◌≡◌, refl, Bool, true, false, Option, none, some, if◌then◌else◌}
use pfs.Error.{Result, ok, err, panic}
use pfs.Fuse.Reply.{
  Reply, reply, error, died, Errno, Handler, some_or, ok_or, ok_else, require, continue, ◌>>=◌,
}

-- `Q` holds of the value in the answer, if there is one.
abbrev pub OnReply : {A : Type 0} → (A → Type 0) → Reply A → Type 0
OnReply Q (reply a) = Q a
OnReply Q (error e) = Unit
OnReply Q died = Unit

-- Any answer will do.
abbrev pub Any : {A : Type 0} → A → Type 0
Any a = Unit

abbrev pub Keeps : {S A : Type 0} → (S → Type 0) → (A → Type 0) → Reply A × S → Type 0
Keeps P Q (r, s) = P s × OnReply Q r

-- The handler keeps `P`, and its answer satisfies `Q`.
pub record Safe {S A : Type 0} (P : S → Type 0) (Q : A → Type 0) (m : Handler S A) : Type 0 where
  pub run : (s : S) → P s → Keeps P Q (m s)

module _ {S : Type 0} (P : S → Type 0) {B : Type 0} (R : B → Type 0) where
  pub then_any :
      {A : Type 0} (Q : A → Type 0) (m : Handler S A) (f : A → Handler S B)
      → Safe P Q m
      → ((a : A) → Q a → Safe P R (f a))
      → Safe P R (m >>= f)
  then_any {A} Q m f h k = record { run = λ s p. go (m s) (h.run s p) }
    where
      go : (r : Reply A × S) → Keeps P Q r → Keeps P R (continue (r.0) f (r.1))
      go (reply a, t) (pt, q) = (k a q).run t pt
      go (error e, t) (pt, q) = (pt, tt)
      go (died, t) (pt, q) = (pt, tt)

  pub then_some :
      {A : Type 0} (o : Option A) (e : Errno) (f : A → Handler S B)
      → ((a : A) → o ≡ some a → Safe P R (f a))
      → Safe P R (some_or o e >>= f)
  then_some none e f k = record { run = λ s p. (p, tt) }
  then_some (some a) e f k = record { run = λ s p. (k a refl).run s p }

  pub then_ok :
      {A : Type 0} (r : Result A) (e : Errno) (f : A → Handler S B)
      → ((a : A) → Safe P R (f a))
      → Safe P R (ok_or r e >>= f)
  then_ok (ok a) e f k = record { run = λ s p. (k a).run s p }
  then_ok (err x) e f k = record { run = λ s p. (p, tt) }
  then_ok panic e f k = record { run = λ s p. (p, tt) }

  pub then_require :
      (b : Bool) (e : Errno) (f : Unit {0} → Handler S B)
      → Safe P R (f tt)
      → Safe P R (require b e >>= f)
  then_require true e f k = record { run = λ s p. k.run s p }
  then_require false e f k = record { run = λ s p. (p, tt) }

  pub either :
      (b : Bool) (m n : Handler S B) → Safe P R m → Safe P R n → Safe P R (if b then m else n)
  either true m n h k = h
  either false m n h k = k

module _ {S : Type 0} (P : S → Type 0) where
  pub ok_or-Safe : {A : Type 0} (r : Result A) (e : Errno) → Safe P Any (ok_or r e)
  ok_or-Safe (ok a) e = record { run = λ s p. (p, tt) }
  ok_or-Safe (err x) e = record { run = λ s p. (p, tt) }
  ok_or-Safe panic e = record { run = λ s p. (p, tt) }

  pub ok_else-Safe : {A : Type 0} (r : Result A) (d : A) → Safe P Any (ok_else r d)
  ok_else-Safe (ok a) d = record { run = λ s p. (p, tt) }
  ok_else-Safe (err x) d = record { run = λ s p. (p, tt) }
  ok_else-Safe panic d = record { run = λ s p. (p, tt) }
