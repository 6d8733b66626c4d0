-- ===== src/Acme/Storage/Refinement.antt =====
-- internal/acme/storage.go: the order files, as a table that the saves fill and the loads read. An entry
-- of the table is the order that the file of an id holds; ids whose files are one, as "a" and "x/../a",
-- are one.
use std.Path.{subst}
use ad_pki_ca.Base.{
  true, false, ◌⊎◌, ◌≡◌, sym, Option, none, some, List, [], ◌∷◌, String, ◌<>◌, if◌then◌else◌,
  Option-cases, Bool-cases, inl, inr, arith,
}
use ad_pki_ca.Env.{Env}
use ad_pki_ca.Json.{◌>>=◌}
use ad_pki_ca.Files.{FilePath, path_eq, read_file, write_file, mkdir_all, Content, json, text}
use ad_pki_ca.Files.Laws.{read_file-mkdir_all, read_file-failed_write, path_eq_iff}
use ad_pki_ca.World.{World, Outcome, ok, err}
use ad_pki_ca.World.Laws.{Outcome-cases}
use ad_pki_ca.Acme.Types.{Order, encode_order, decode_order}
use ad_pki_ca.Acme.Types.RoundTrip.{decode_order-encode_order}
use ad_pki_ca.Acme.Storage.{
  acme_path, ensure_dir, write_content, write_json, read_json, order_path, save_order, load_order,
}
use ad_pki_ca.Acme.Storage.Laws.{save_order-Wrote}

pub data Op : Type 0 where
  save : Order → Op
  load : String → Op

pub data Reply : Type 0 where
  saved : Reply
  refused : Reply
  found : Option Order → Reply

abbrev saved_or_not : Outcome String (Unit {0}) → Reply
saved_or_not (ok _) = saved
saved_or_not (err _) = refused

abbrev answer : Outcome String Order → Option Order
answer (ok o) = some o
answer (err e) = none

abbrev pub Table : Type 0
Table = String → Option Order

module _ (env : Env) where
  -- The operations in turn, as the code does them, and what each returns.
  abbrev pub run : List Op → World → List Reply × World
  run [] w = ([], w)
  run (save o ∷ ops) w =
      let (r, u) = save_order env o w in
      let (replies, v) = run ops u in (saved_or_not r ∷ replies, v)
  run (load id ∷ ops) w =
      let (r, u) = load_order env id w in
      let (replies, v) = run ops u in (found (answer r) ∷ replies, v)

  abbrev pub file_of : String → FilePath
  file_of id = acme_path env ("orders" ∷ (id <> ".json") ∷ [])

  abbrev pub put : Order → Table → Table
  put o m id = if path_eq (file_of o.id) (file_of id) then some o else m id

  -- The tables differ only at the ids whose file is the order's.
  abbrev pub IsSameBut : Order → Table → Table → Type 0
  IsSameBut o m m' = (id : String) → (path_eq (file_of o.id) (file_of id) ≡ true) ⊎ (m' id ≡ m id)

  -- What a table allows: a save puts the order in, or fails, and then nothing is known of that entry, as
  -- a write may have broken off, and the others are as they were; a load finds what is there, and
  -- changes nothing.
  pub data Allows : Table → List Op → List Reply → Table → Type 0 where
    at_end : {m : Table} → Allows m [] [] m
    after_save :
        {m n : Table} {o : Order} {ops : List Op} {replies : List Reply}
        → Allows (put o m) ops replies n
        → Allows m (save o ∷ ops) (saved ∷ replies) n
    after_refusal :
        {m m' n : Table} {o : Order} {ops : List Op} {replies : List Reply}
        → IsSameBut o m m'
        → Allows m' ops replies n
        → Allows m (save o ∷ ops) (refused ∷ replies) n
    after_load :
        {m n : Table} {id : String} {ops : List Op} {replies : List Reply}
        → Allows m ops replies n
        → Allows m (load id ∷ ops) (found (m id) ∷ replies) n

  abbrev order_in : Option Content → Option Order
  order_in none = none
  order_in (some (json j)) = decode_order j
  order_in (some (text s)) = env.parse_text s >>= decode_order

  -- What the files in the directory "orders" hold.
  abbrev pub table_of : World → Table
  table_of w id = order_in (read_file (file_of id) w.fs)

  load_order_lem : (id : String) (w : World) → answer (load_order env id w).0 ≡ table_of w id
  unfolding load_order read_json order_path
  load_order_lem id w = elim (Option-cases (read_file (file_of id) w.fs)) [
    | inl n ↦ ground (arith, n)
    | inr (json j, k) ↦ ground (arith, k)
    | inr (text s, k) ↦ ground (arith, k)
  ]

  table_of-save_order :
      (o : Order) (w v : World)
      → save_order env o w ≡ (ok tt, v)
      → (id : String) → table_of v id ≡ put o (table_of w) id
  unfolding order_path
  table_of-save_order o w v h id =
      let there = (save_order-Wrote env o w v h).files (file_of id) in
      elim (Bool-cases (path_eq (file_of o.id) (file_of id))) [
        | inl same ↦ ground (arith, there, same, decode_order-encode_order o)
        | inr other ↦ ground (arith, there, other)
      ]

  failed-files :
      (o : Order) (w : World) (e : String)
      → (save_order env o w).0 ≡ err e
      → (p : FilePath) → path_eq (file_of o.id) p ≡ false
      → read_file p (save_order env o w).1.fs ≡ read_file p w.fs
  unfolding save_order ensure_dir write_json write_content order_path
  failed-files o w e h p other =
      elim (Option-cases (mkdir_all (acme_path env ("orders" ∷ [])) w.fs)) [
        | inl n ↦ ground (arith, n)
        | inr (fs, made) ↦
            elim (Option-cases (write_file w.now (file_of o.id) (json (encode_order o)) fs)) [
              | inr (gs, wrote) ↦ absurd (ground (arith, made, wrote, h))
              | inl n ↦ elim (read_file-failed_write p (file_of o.id) w.now fs) [
                | inl kept ↦ ground (
                  arith,
                  made,
                  n,
                  kept,
                  read_file-mkdir_all p (acme_path env ("orders" ∷ [])) w.fs made,
                )
                | inr (left, here, cut, seen) ↦
                    absurd (ground (arith, other, path_eq_iff (file_of o.id) p, here))
              ]
            ]
      ]

  table_of-failed :
      (o : Order) (w : World) (e : String)
      → (save_order env o w).0 ≡ err e
      → IsSameBut o (table_of w) (table_of (save_order env o w).1)
  table_of-failed o w e h id = elim (Bool-cases (path_eq (file_of o.id) (file_of id))) [
    | inl same ↦ inl same
    | inr other ↦ inr (ground (arith, failed-files o w e h (file_of id) other))
  ]

  load_order-world : (id : String) (w : World) → (load_order env id w).1 ≡ w
  unfolding load_order
  load_order-world id w = ground arith

  -- Saves and loads of orders, in any sequence and from any state, are those of a table, the orders that
  -- the files hold: what the code answers, failed writes included, is what the table of the files
  -- before them allows, and it ends as the table of the files after them.
  pub run-Allows :
      (ops : List Op) (w : World) → Allows (table_of w) ops (run ops w).0 (table_of (run ops w).1)
  run-Allows [] w = at_end
  run-Allows (save o ∷ ops) w =
      let u : World = (save_order env o w).1 in
      let rest = run-Allows ops u in
      elim (Outcome-cases (save_order env o w).0) [
        | inl (e, k) ↦
            subst
              (λ r.
                Allows (table_of w) (save o ∷ ops) (saved_or_not r ∷ (run ops u).0)
                  (table_of (run ops u).1))
              (sym k) (after_refusal (table_of-failed o w e k) rest)
        | inr (_, k) ↦
            subst
              (λ r.
                Allows (table_of w) (save o ∷ ops) (saved_or_not r ∷ (run ops u).0)
                  (table_of (run ops u).1))
              (sym k)
              (after_save (
                subst (λ m. Allows m ops (run ops u).0 (table_of (run ops u).1))
                  (λ i id. table_of-save_order o w u (λ j. (k j, u)) id i) rest))
      ]
  run-Allows (load id ∷ ops) w =
      let u : World = (load_order env id w).1 in
      subst
        (λ m.
          Allows (table_of w) (load id ∷ ops) (found m ∷ (run ops u).0) (table_of (run ops u).1))
        (sym (load_order_lem id w))
        (after_load (
          subst (λ (v : World). Allows (table_of v) ops (run ops u).0 (table_of (run ops u).1))
            (load_order-world id w) (run-Allows ops u)))
