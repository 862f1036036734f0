-- ===== src/Writer/State.antt =====
-- The state of `Writer`, and the parts of it that its methods work on. `clock` is what the system
-- clock shows, in seconds since 1970.
use pfs.Prelude.{ℕ, List}
use pfs.Exec.{Exec, zoom}
use pfs.Cache
use pfs.Cache.{Env}
use pfs.Volume.{Volume}
use pfs.Ondisk.Rootblock.{Rootblock}

pub record Writer (D : Type 0) : Type 0 where
  pub vol : Volume D
  pub resblocksize : ℕ
  pub rescluster : ℕ
  pub index_per_block : ℕ
  pub anodes_per_block : ℕ
  pub firstreserved : ℕ
  pub numreserved : ℕ
  pub bitmapstart : ℕ
  pub datestamp : ℕ
  pub res_bitmap : List ℕ
  pub data_bm : List (ℕ × List ℕ)
  pub pending_writes : List (ℕ × List ℕ)
  pub clock : ℕ

module _ {D : Type 0} where
  abbrev pub set_vol : Writer D → Volume D → Writer D
  set_vol w v = record w { vol = v }

  abbrev pub on_vol : {A : Type 0} → Exec (Volume D) A → Exec (Writer D) A
  on_vol m = zoom (λ w. w.vol) set_vol m

  abbrev pub set_env : Writer D → Env D → Writer D
  set_env w env = record w { vol = record (w.vol) { env = env } }

  abbrev pub on_env : {A : Type 0} → Exec (Env D) A → Exec (Writer D) A
  on_env m = zoom (λ w. w.vol.env) set_env m

  abbrev pub set_dev : Writer D → D → Writer D
  set_dev w dev = set_env w (record (w.vol.env) { dev = dev })

  abbrev pub on_dev : {A : Type 0} → Exec D A → Exec (Writer D) A
  on_dev m = zoom (λ w. w.vol.env.dev) set_dev m

  abbrev pub set_rootblock : Writer D → Rootblock → Writer D
  set_rootblock w rb = record w { vol = record (w.vol) { rootblock = rb } }

  -- `self.vol.cache.invalidate(blk)`
  abbrev pub uncache : ℕ → Writer D → Writer D
  uncache blk w = set_env w (record (w.vol.env) { cache = Cache.invalidate blk w.vol.env.cache })
