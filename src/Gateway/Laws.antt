-- ===== src/Gateway/Laws.antt =====
-- The command line and the start of crates/ajar-gateway/src/main.rs.
use ajar_gateway.Common.{
  ◌≡◌, refl, ◌↔◌, inl, inr, Option, some, List, [], ◌∷◌, if◌then◌else◌, Result, ok, err,
  ok_or-eq-ok, Bool-cases, arith,
}
use ajar_gateway.Text.{text_eq}
use ajar_gateway.Text.Laws.{text_eq_iff, text_eq_refl}
use ajar_gateway.Gateway.{
  OsString, GatewayBinaryError, missing_config_path, config_flag, parse_args, parse_config_path,
}

-- The arguments that give each of the paths in turn.
abbrev pub flags : List OsString → List OsString
flags [] = []
flags (path ∷ paths) = config_flag ∷ path ∷ flags paths

-- The last of the paths, or the one before them.
abbrev pub last_or : Option OsString → List OsString → Option OsString
last_or path [] = path
last_or path (p ∷ paths) = last_or (some p) paths

-- The path that arguments and environment give.
pub record GivesPath (args : List OsString) (env_path : Option OsString) (path : OsString)
    : Type 0 where
  pub paths : List OsString
  pub args_are : args ≡ flags paths
  pub last_is : last_or env_path paths ≡ some path

flag_first :
    (arg : OsString) (r : Result GatewayBinaryError OsString) (path : OsString)
    → (if text_eq arg config_flag then r else err (GatewayBinaryError.unknown_argument arg))
      ≡ ok path
    → (arg ≡ config_flag) × (r ≡ ok path)
flag_first arg r path h = elim (Bool-cases (text_eq arg config_flag)) [
  | inl is_flag ↦ ((text_eq_iff arg config_flag).0 is_flag, rw is_flag at h)
  | inr differs ↦ absurd (ground (arith, h, differs))
]

single_lem :
    (arg : OsString) (env_path : Option OsString) (path : OsString)
    → parse_args (arg ∷ []) env_path ≡ ok path
    → ⊥
unfolding parse_args
single_lem arg env_path path h = ground (arith, h)

parse-GivesPath :
    (args : List OsString) (env_path : Option OsString) (path : OsString)
    → parse_args args env_path ≡ ok path
    → GivesPath args env_path path
unfolding parse_args
parse-GivesPath [] env_path path h = record {
  paths = [];
  args_are = refl;
  last_is = ok_or-eq-ok env_path missing_config_path h;
}
parse-GivesPath (arg ∷ []) env_path path h = absurd (single_lem arg env_path path h)
parse-GivesPath (arg ∷ value ∷ args) env_path path h =
    let (is_flag, rest) = flag_first arg (parse_args args (some value)) path h in
    let g = parse-GivesPath args (some value) path rest in
    record {
      paths = value ∷ g.paths;
      args_are = λ i. is_flag i ∷ value ∷ g.args_are i;
      last_is = g.last_is;
    }

flags-parse :
    (paths : List OsString) (env_path : Option OsString) (path : OsString)
    → last_or env_path paths ≡ some path
    → parse_args (flags paths) env_path ≡ ok path
unfolding parse_args
flags-parse [] env_path path h = rw h
flags-parse (p ∷ paths) env_path path h =
    rw (text_eq_refl config_flag) (flags-parse paths (some p) path h)

-- `parse_config_path` succeeds exactly on arguments that are `--config` and a path, any number of
-- times: the last path is taken, and that of the environment where there is none.
pub parse_config_path_iff :
    (args : List OsString) (env_path : Option OsString) (path : OsString)
    → (parse_config_path args env_path ≡ ok path) ↔ GivesPath args env_path path
unfolding parse_config_path
parse_config_path_iff args env_path path = (
  parse-GivesPath args env_path path,
  λ g. rw g.args_are (flags-parse g.paths env_path path g.last_is),
)
