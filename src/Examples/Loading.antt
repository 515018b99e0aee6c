-- ===== src/Examples/Loading.antt =====
-- A second file system for the site, which lists the directory of the Views in another order.
use mathlib.Core.List.{Permᴰ}
use ajar_gateway.Common.{ℕ, ◌≡◌, refl, List, [], ◌∷◌, ok}
use ajar_gateway.Text.{codes}
use ajar_gateway.Store.Backend.{FileSystem}
use ajar_gateway.Store.Load.{load_from_dir}
use ajar_gateway.Store.Load.Listing.{load_from_dir-perm}
use ajar_gateway.Examples.Site.{dir, site_fs, site_serde, today}
use ajar_gateway.Examples.Published.{a_json-IsName, notes_txt-IsName}

abbrev view_name : List ℕ
view_name = codes "a.json"

abbrev notes_name : List ℕ
notes_name = codes "notes.txt"

abbrev other_fs : FileSystem ℕ
other_fs = record site_fs { read_dir = λ s path. ok (ok notes_name ∷ ok view_name ∷ []) }

load_from_dir-perm_example :
    load_from_dir site_serde site_fs 3 dir today ≡ load_from_dir site_serde other_fs 3 dir today
load_from_dir-perm_example =
    load_from_dir-perm site_serde site_fs 3 other_fs 3 dir (λ path. refl)
      (view_name ∷ notes_name ∷ []) (notes_name ∷ view_name ∷ [])
      (a_json-IsName, (notes_txt-IsName, tt)) (notes_txt-IsName, (a_json-IsName, tt))
      ∣ Permᴰ.swap refl refl ∣₁ today refl refl
