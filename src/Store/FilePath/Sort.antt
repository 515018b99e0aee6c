-- ===== src/Store/FilePath/Sort.antt =====
-- `sort` on paths, as crates/store/src/lib.rs uses it.
use ajar_gateway.Common.{inl, inr, List, [], ◌∷◌, Some, if_lem}
use ajar_gateway.Store.FilePath.{FilePath, path_leb, insert_path, sort_paths}

module _ (P : FilePath → Type 0) where
  Some-insert_path :
      (p : FilePath) (ps : List FilePath) → Some P (p ∷ ps) → Some P (insert_path p ps)
  unfolding insert_path
  Some-insert_path p [] h = h
  Some-insert_path p (q ∷ qs) h =
      if_lem (Some P) (path_leb p q) _ _ (λ _. h)
        (λ _. elim h [
          | inl at_p ↦ inr (Some-insert_path p qs (inl at_p))
          | inr (inl at_q) ↦ inl at_q
          | inr (inr later) ↦ inr (Some-insert_path p qs (inr later))
        ])

  -- Sorting loses no path.
  pub Some-sort_paths : (ps : List FilePath) → Some P ps → Some P (sort_paths ps)
  unfolding sort_paths
  Some-sort_paths [] h = h
  Some-sort_paths (p ∷ ps) (inl h) = Some-insert_path p (sort_paths ps) (inl h)
  Some-sort_paths (p ∷ ps) (inr h) = Some-insert_path p (sort_paths ps) (inr (Some-sort_paths ps h))
