-- ===== src/Cache/Quiet.antt =====
-- About methods that read through the cache and leave the device alone.
use pfs.Prelude.{
  ℕ, List, [], ◌∷◌, ◌++◌, ◌≡◌, refl, ◌∙◌, Bool, true, false, Option, none, some, if◌then◌else◌,
}
use pfs.Error.{Result, ok, err, panic}
use pfs.Exec.{Exec, pure, lift, continue, ◌>>=◌, concat_each}
use pfs.Io.{BlockDevice}
use pfs.Cache.{
  Env, CacheEntry, find, keep_block, read_device, read_entry, read_reserved, next_generation,
}

-- A method leaves alone what `view` shows of the state.
pub record Quiet {S D A : Type 0} (view : S → D) (m : Exec S A) : Type 0 where
  pub run : (s : S) → view ((m s).1) ≡ view s

module _ {S D : Type 0} (view : S → D) where
  pub pure-Quiet : {A : Type 0} (a : A) → Quiet view (pure a)
  pure-Quiet a = record { run = λ s. refl }

  pub lift-Quiet : {A : Type 0} (r : Result A) → Quiet view (lift r)
  lift-Quiet r = record { run = λ s. refl }

  pub then-Quiet :
      {A B : Type 0} (m : Exec S A) (f : A → Exec S B)
      → Quiet view m
      → ((a : A) → Quiet view (f a))
      → Quiet view (m >>= f)
  then-Quiet {A} {B} m f h k = record { run = λ s. go s (m s) (h.run s) }
    where
      go :
          (s : S) (p : Result A × S)
          → view (p.1) ≡ view s
          → view ((continue (p.0) f (p.1)).1) ≡ view s
      go s (ok a, t) e = (k a).run t ∙ e
      go s (err x, t) e = e
      go s (panic, t) e = e

  pub if-Quiet :
      {A : Type 0} (b : Bool) (m n : Exec S A)
      → Quiet view m
      → Quiet view n
      → Quiet view (if b then m else n)
  if-Quiet true m n h k = h
  if-Quiet false m n h k = k

  pub concat_each-Quiet :
      {A B : Type 0} (xs : List A) (body : A → Exec S (List B))
      → ((x : A) → Quiet view (body x))
      → Quiet view (concat_each xs body)
  unfolding concat_each
  concat_each-Quiet [] body h = pure-Quiet []
  concat_each-Quiet (x ∷ xs) body h = then-Quiet (body x) _ (h x) (λ ys.
      then-Quiet (concat_each xs body) _ (concat_each-Quiet xs body h)
        (λ rest. pure-Quiet (ys ++ rest)))

abbrev pub env_dev : {D : Type 0} → Env D → D
env_dev s = s.dev

module _ {D : Type 0} (device : BlockDevice D) where
  pub read_reserved-Quiet : (block n : ℕ) → Quiet env_dev (read_reserved device block n)
  unfolding read_reserved read_entry
  read_reserved-Quiet block n = record { run = λ s. entry s (find block s.cache.entries) }
    where
      kept : (s : Env D) (r : Result (List ℕ)) → ((keep_block device block r s).1).dev ≡ s.dev
      kept s (ok bytes) = refl
      kept s (err e) = refl
      kept s panic = refl

      entry :
          (s : Env D) (o : Option CacheEntry)
          → ((read_entry device block n o (next_generation device s)).1).dev ≡ s.dev
      entry s (some e) = refl
      entry s none = kept (next_generation device s) (read_device device s.dev block n)
