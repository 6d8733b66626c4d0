-- ===== src/Worker/Cleanup/Removed.antt =====
-- internal/worker/acme_cleanup_worker.go: what a cleanup removes, and what it keeps.
use ad_pki_ca.Base.{ℕ, ◌++◌, ◌<◌, ◌≡◌, ◌⊎◌, none, some, List, [], ◌∷◌}
use ad_pki_ca.Env.{Env}
use ad_pki_ca.Files.{FilePath, Fs, Entry, join, read_dir, read_file}
use ad_pki_ca.World.{World}
use ad_pki_ca.Worker.Cleanup.{clear_entries, clear_dirs}

-- The element stands in the list.
abbrev pub IsAmong : {A : Type 0} → A → List A → Type 0
IsAmong x [] = ⊥
IsAmong x (y ∷ ys) = (x ≡ y) ⊎ IsAmong x ys

-- What a file holds after a cleanup that began with the files `start`: what it held, or nothing, if it
-- was an old entry of one of the directories when that was read, after the ones before it were cleared.
pub data AfterCleanup (cutoff : ℕ) (dirs : List FilePath) (p : FilePath) (start fs gs : Fs)
    : Type 0 where
  kept : read_file p gs ≡ read_file p fs → AfterCleanup cutoff dirs p start fs gs
  removed :
      (before : List FilePath) (dir : FilePath) (after : List FilePath) (entries : List Entry)
      (e : Entry)
      → read_file p gs ≡ none
      → dirs ≡ before ++ dir ∷ after
      → read_dir dir (clear_dirs cutoff before start) ≡ some entries
      → IsAmong e entries
      → p ≡ join dir (e.name ∷ [])
      → e.mod_time < cutoff
      → AfterCleanup cutoff dirs p start fs gs

module _ (cutoff : ℕ) (p : FilePath) (start : Fs) where
  -- The part of a directory's entries that is still to be cleared is among them.
  abbrev IsPart : List Entry → List Entry → Type 0
  IsPart es entries = (e : Entry) → IsAmong e es → IsAmong e entries

  abbrev clear_dir : FilePath → Fs → Fs
  clear_dir dir fs = elim (read_dir dir fs) [
    | none ↦ fs
    | some entries ↦ clear_entries cutoff dir entries fs
  ]
