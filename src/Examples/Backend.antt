-- ===== src/Examples/Backend.antt =====
-- An instance of the theorem on the file system backend of crates/store, on a disk that is the list of
-- its writes.
use ajar_gateway.Common.{
  ℕ, ◌≡◌, ◌≢◌, refl, sym, ap, ◌∙◌, false, List, [], ◌∷◌, ◌++◌, map, Result, ok, err, subst, inl,
  inr, Bool-cases, arith, if◌then◌else◌,
}
use ajar_gateway.Text.{codes, utf8, text_eq, starts_with, split}
use ajar_gateway.Text.Laws.{text_eq_iff, text_eq_refl}
use ajar_gateway.Store.Error.{IoErrorKind, not_found, other}
use ajar_gateway.Store.FilePath.{FilePath, Component, normal, join_path, components, parent}
use ajar_gateway.Store.Backend.{FileSystem, StoreKey, path_for, read_file, write_file}
use ajar_gateway.Store.Model.{Bytes}
use ajar_gateway.Store.Backend.Laws.{KeepsFiles, IsKey, names, write_file-read_file}
use ajar_gateway.Examples.Site.{dir}

abbrev Disk : Type 0
Disk = List (FilePath × Bytes)

abbrev disk_read : Disk → FilePath → Result IoErrorKind Bytes
disk_read [] path = err not_found
disk_read ((written, bytes) ∷ disk) path =
    if text_eq written path then ok bytes else disk_read disk path

abbrev disk_fs : FileSystem Disk
disk_fs = record {
  read = disk_read;
  read_dir = λ s path. err other;
  create_dir_all = λ s path. (ok tt, s);
  write = λ s path bytes. (ok tt, (path, bytes) ∷ s);
}

state_of :
    (s t : Disk) → ◌≡◌ {A = Result IoErrorKind (Unit {0}) × Disk} (ok tt, s) (ok tt, t) → s ≡ t
state_of s t h = ap (λ (w : Result IoErrorKind (Unit {0}) × Disk). w.1) h

drop_common : (above xs ys : List Component) → above ++ xs ≡ above ++ ys → xs ≡ ys
drop_common [] xs ys h = h
drop_common (c ∷ above) xs ys h = drop_common above xs ys (cc (h))

normal_injective : (xs ys : List (List ℕ)) → map normal xs ≡ map normal ys → xs ≡ ys
normal_injective [] [] h = refl
normal_injective [] (y ∷ ys) h = absurd (cc (h))
normal_injective (x ∷ xs) [] h = absurd (cc (h))
normal_injective (x ∷ xs) (y ∷ ys) h =
    let tails = normal_injective xs ys (cc (h)) in let heads : x ≡ y = cc (h) in cc (tails, heads)

-- Paths with other components are not the same text.
other_path :
    (path second : FilePath) (above : List Component) (row other_row : List (List ℕ))
    → components path ≡ above ++ map normal row
    → components second ≡ above ++ map normal other_row
    → row ≢ other_row
    → text_eq path second ≡ false
other_path path second above row other_row p q differ = elim (Bool-cases (text_eq path second)) [
  | inl same ↦ absurd (
      differ (
        normal_injective row other_row
          (drop_common above _ _ (sym p ∙ ap components ((text_eq_iff path second).0 same) ∙ q))))
  | inr not_same ↦ not_same
]

disk_keeps : KeepsFiles disk_fs
disk_keeps = record {
  reads_back = λ s s' path bytes h.
      subst (λ (d : Disk). disk_read d path ≡ ok bytes) (state_of _ s' h)
        (rw (text_eq_refl path) refl);
  keeps_others = λ s s' path second bytes held above row other_row h p q differ held_before.
      subst (λ (d : Disk). disk_read d second ≡ ok held) (state_of _ s' h)
        (rw (other_path path second above row other_row p q differ) held_before);
  creates = λ s s' at path held h held_before.
      subst (λ (d : Disk). disk_read d path ≡ ok held) (state_of s s' h) held_before;
}

abbrev page_key : StoreKey
page_key = record { namespace = codes "views"; key = codes "a.json" }

-- The same name in another namespace.
abbrev index_key : StoreKey
index_key = record { namespace = codes "index"; key = codes "a.json" }

abbrev disk : Disk
disk = (codes "site/index/a.json", 2 ∷ []) ∷ []

abbrev written_disk : Disk
written_disk = (codes "site/views/a.json", 1 ∷ []) ∷ disk

writes : write_file disk_fs dir disk page_key (1 ∷ []) ≡ (ok tt, written_disk)
unfolding write_file path_for parent join_path components text_eq starts_with split utf8
writes = refl

reads : read_file disk_fs dir disk index_key ≡ ok (2 ∷ [])
unfolding read_file path_for join_path text_eq starts_with utf8
reads = refl

page-IsKey : IsKey page_key
unfolding utf8 text_eq
page-IsKey = (
  record { some_byte = refl; no_slash = ground arith; not_here = refl; not_up = refl },
  record { some_byte = refl; no_slash = ground arith; not_here = refl; not_up = refl },
)

index-IsKey : IsKey index_key
unfolding utf8 text_eq
index-IsKey = (
  record { some_byte = refl; no_slash = ground arith; not_here = refl; not_up = refl },
  record { some_byte = refl; no_slash = ground arith; not_here = refl; not_up = refl },
)

other_names : names page_key ≢ names index_key
unfolding utf8
other_names h = absurd (ground (arith, h))

write_file-read_file_example :
    (read_file disk_fs dir written_disk page_key ≡ ok (1 ∷ []))
    × (read_file disk_fs dir written_disk index_key ≡ ok (2 ∷ []))
write_file-read_file_example =
    write_file-read_file disk_fs dir disk_keeps refl disk written_disk page_key index_key (1 ∷ [])
      (2 ∷ []) page-IsKey index-IsKey other_names writes reads
