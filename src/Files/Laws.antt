-- ===== src/Files/Laws.antt =====
-- Laws of the files: what is written is read back, and nothing else changes.
use ad_pki_ca.Base.{
  ℕ, ◌≡◌, refl, sym, ◌↔◌, ◌⊎◌, inl, inr, String, not, Bool-cases, Option-cases, true, none, some,
  List, [], ◌∷◌, ◌++◌, eq_iff, arith, if◌then◌else◌, ◌||◌,
}
use ad_pki_ca.Files.{
  FilePath, path_eq, Content, File, Fs, find_file, put_file, drop_file, read_file, write_file,
  failed_write, text, parent, has_dir, mkdir_all, with_parents, remove_file,
}

pub path_eq_iff : (p q : FilePath) → (path_eq p q ≡ true) ↔ (p ≡ q)
unfolding path_eq
path_eq_iff [] [] = (λ _. refl, λ _. refl)
path_eq_iff [] (t ∷ q) = (λ h. cc, λ h. cc)
path_eq_iff (s ∷ p) [] = (λ h. cc, λ h. cc)
path_eq_iff (s ∷ p) (t ∷ q) = (
  λ h. ground (arith, eq_iff s t, path_eq_iff p q),
  λ h. ground (arith, eq_iff s t, path_eq_iff p q),
)

pub path_eq_refl : (p : FilePath) → path_eq p p ≡ true
path_eq_refl p = (path_eq_iff p p).1 refl

pub find_file-put_file :
    (p : FilePath) (g : File) (fs : List File)
    → find_file p (put_file g fs) ≡ (if path_eq g.path p then some g else find_file p fs)
unfolding find_file put_file
find_file-put_file p g [] = refl
find_file-put_file p g (f ∷ fs) = ground (
  arith,
  find_file-put_file p g fs,
  path_eq_iff f.path g.path,
  path_eq_iff f.path p,
  path_eq_iff g.path p,
)

pub find_file-drop_file :
    (p q : FilePath) (fs : List File)
    → find_file p (drop_file q fs) ≡ (if path_eq q p then none else find_file p fs)
unfolding find_file drop_file
find_file-drop_file p q [] = ground arith
find_file-drop_file p q (f ∷ fs) =
    ground (
      arith,
      find_file-drop_file p q fs,
      path_eq_iff f.path q,
      path_eq_iff f.path p,
      path_eq_iff q p,
    )

-- A write that goes through shows at its path and nowhere else.
pub read_file-write_file :
    (p q : FilePath) (now : ℕ) (c : Content) (fs : Fs) {fs' : Fs}
    → write_file now q c fs ≡ some fs'
    → read_file p fs' ≡ (if path_eq q p then some c else read_file p fs)
unfolding read_file write_file
read_file-write_file p q now c fs h =
    ground (arith, find_file-put_file p (record { path = q; content = c; mod_time = now }) fs.files)

-- A failed write leaves every file as it was, or what got into its own.
pub read_file-failed_write :
    (p q : FilePath) (now : ℕ) (fs : Fs)
    → (read_file p (failed_write now q fs) ≡ read_file p fs)
      ⊎ ((left : String) × (p ≡ q)
          × (fs.cuts p ≡ some left)
          × (read_file p (failed_write now q fs) ≡ some (text left)))
unfolding read_file failed_write
read_file-failed_write p q now fs =
    elim (Bool-cases (fs.refuses q || has_dir q fs.dirs || not (has_dir (parent q) fs.dirs))) [
      | inl shut ↦ inl (ground (arith, shut))
      | inr open' ↦ elim (Option-cases (fs.cuts q)) [
        | inl whole ↦ inl (ground (arith, open', whole))
        | inr (left, cut) ↦
            let seen =
              find_file-put_file p (record { path = q; content = text left; mod_time = now })
                fs.files in
            elim (Bool-cases (path_eq q p)) [
              | inr there ↦ inl (ground (arith, open', cut, seen, there))
              | inl here ↦
                  let same : q ≡ p = (path_eq_iff q p).0 here in
                  inr (
                    left,
                    sym same,
                    ground (arith, cut, same),
                    ground (arith, open', cut, seen, here),
                  )
            ]
      ]
    ]

pub read_file-mkdir_all :
    (p q : FilePath) (fs : Fs) {fs' : Fs}
    → mkdir_all q fs ≡ some fs'
    → read_file p fs' ≡ read_file p fs
unfolding read_file mkdir_all
read_file-mkdir_all p q fs h = ground arith

pub read_file-remove_file :
    (p q : FilePath) (fs : Fs) {fs' : Fs}
    → remove_file q fs ≡ some fs'
    → read_file p fs' ≡ (if path_eq q p then none else read_file p fs)
unfolding read_file remove_file
read_file-remove_file p q fs h = ground (arith, find_file-drop_file p q fs.files, path_eq_iff q p)

pub has_dir-append :
    (p : FilePath) (ds es : List FilePath) → has_dir p (ds ++ es) ≡ (has_dir p ds || has_dir p es)
unfolding has_dir
has_dir-append p [] es = refl
has_dir-append p (d ∷ ds) es = ground (arith, has_dir-append p ds es)

pub has_dir-with_parents : (p : FilePath) → has_dir p (with_parents p) ≡ true
unfolding has_dir with_parents
has_dir-with_parents [] = ground (arith, path_eq_refl [])
has_dir-with_parents (s ∷ p) = ground (arith, path_eq_refl (s ∷ p))
