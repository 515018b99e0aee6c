-- ===== src/Scenarios/Fixture.antt =====
-- The store directory of the tests of crates/serving/src/lib.rs: `MANIFEST_FIXTURE`, `VIEW_FIXTURE`
-- and `rewrite_store_fixture`. All of it is ASCII.
use ajar_gateway.Common.{
  ℕ, zero, suc, ◌-◌, min, [], ◌∷◌, ◌++◌, if◌then◌else◌, length, drop, Result, ok, err,
}
use ajar_gateway.Text.{Text, codes, starts_with, utf8}
use ajar_gateway.Text.Number.{decimal}
use ajar_gateway.Store.Error.{IoErrorKind}
use ajar_gateway.Store.FilePath.{FilePath, join_path}
use ajar_gateway.Store.Backend.{FileSystem}

abbrev pub manifest_fixture : Text
manifest_fixture =
    codes "{\"ajar_version\":\"0.1\",\"supported_versions\":[\"0.1\"],\"profiles\":[\"CORE\"]"
    ++ codes ",\"site\":{\"name\":\"Example Notes\",\"domain\":\"notes.example\",\"description\""
    ++ codes ":\"Independent publication with signed semantic article views.\",\"langua"
    ++ codes "ges\":[\"en\"],\"contact\":\"agents@notes.example\"},\"keys\":{\"owner\":{\"kty\":\""
    ++ codes "OKP\",\"crv\":\"Ed25519\",\"x\":\"ownerNotesPublicKeyExample001\",\"kid\":\"owner-"
    ++ codes
        "2026\"},\"operational\":[{\"key\":{\"kty\":\"OKP\",\"crv\":\"Ed25519\",\"x\":\"opsNote"
    ++ codes "sPublicKeyExample001\",\"kid\":\"content-2026-07\"},\"scope\":[\"content-signi"
    ++ codes "ng\"],\"valid_until\":\"2026-10-01T00:00:00Z\",\"certification\":{\"alg\":\"Ed25"
    ++ codes "519\",\"kid\":\"owner-2026\",\"sig\":\"certNotesContentSigner001\"}}]},\"views\":"
    ++ codes "{\"negotiation\":[\"application/ajar+json\",\"text/markdown\"],\"index\":\"/aja"
    ++ codes "r/views/index\",\"chunking\":{\"stable_ids\":true,\"diff\":\"etag-per-chunk\"},"
    ++ codes "\"license\":{\"read\":\"allowed\",\"train\":\"denied\",\"terms\":\"/ajar/license\"}}"
    ++ codes ",\"policy_summary\":{\"audience_tiers\":[\"anonymous\",\"signed\"],\"rate_limit"
    ++ codes "s\":{\"anonymous\":\"120/h\",\"signed\":\"1200/h\"},\"requires_mandate_from_risk"
    ++ codes "\":\"R2\"},\"issued_at\":\"2026-07-02T00:00:00Z\",\"expires_at\":\"2026-10-01T00"
    ++ codes ":00:00Z\",\"sequence\":1,\"signature\":{\"alg\":\"Ed25519\",\"kid\":\"owner-2026\","
    ++ codes "\"sig\":\"manifestNotesSignature001\"}}"

abbrev pub view_fixture : Text
view_fixture =
    codes "{\"ajar_version\":\"0.1\",\"url\":\"https://notes.example/article?x=1\",\"conte"
    ++ codes "nt_type\":\"application/ajar+json\",\"etag\":\"\\\"view-article-001\\\"\",\"langua"
    ++ codes
        "ge\":\"en\",\"chunks\":[{\"id\":\"article.title\",\"type\":\"heading\",\"content\":\"E"
    ++ codes "xample Notes\",\"hash\":\"sha256:articleTitleHash001\",\"links\":[]},{\"id\":\"a"
    ++ codes "rticle.summary\",\"type\":\"paragraph\",\"content\":\"Signed notes for readers"
    ++ codes " and agents.\",\"hash\":\"sha256:articleSummaryHash001\",\"links\":[]},{\"id\":"
    ++ codes "\"article.list\",\"type\":\"list\",\"content\":\"- First\\n- Second\",\"hash\":\"sha"
    ++ codes "256:articleListHash001\",\"links\":[]}],\"signature\":{\"alg\":\"Ed25519\",\"kid"
    ++ codes "\":\"content-2026-07\",\"sig\":\"viewSignature001\"}}"

-- How many characters are passed over behind this one: those of the match that starts here.
abbrev passed : Text → Text → ℕ
passed from s = if starts_with from s then length from - 1 else 0

-- `str::replace` for a pattern that is not empty; the first `skip` characters are passed over.
unfoldable pub replace_from : Text → Text → ℕ → Text → Text
unfolding starts_with
replace_from from to skip [] = []
replace_from from to (suc skip) (c ∷ s) = replace_from from to skip s
replace_from from to zero (c ∷ s) =
    let rest = replace_from from to (passed from (c ∷ s)) s in
    if starts_with from (c ∷ s) then to ++ rest else c ∷ rest

abbrev replace : Text → Text → Text → Text
replace s from to = replace_from from to 0 s

-- `{:03}`
abbrev three_digits : ℕ → Text
three_digits n = drop (min 3 (length (decimal n))) (codes "000") ++ decimal n

abbrev fixture_manifest : ℕ → Text
fixture_manifest sequence =
    replace
      (replace manifest_fixture (codes "\"sequence\":1")
        (codes "\"sequence\":" ++ decimal sequence))
      (codes "manifestNotesSignature001") (codes "manifestNotesSignature" ++ three_digits sequence)

abbrev fixture_index : Text → Text
fixture_index view_etag =
    codes "{\"views\":[{\"url\":\"/article?x=1\",\"etag\":\"\\\""
    ++ (view_etag ++ codes "\\\"\"}]}")

abbrev fixture_view : ℕ → Text → Text → Text → Text
fixture_view sequence heading paragraph view_etag =
    let titled = replace view_fixture (codes "Example Notes") heading in
    let filled = replace titled (codes "Signed notes for readers and agents.") paragraph in
    let tagged = replace filled (codes "view-article-001") view_etag in
    replace tagged (codes "viewSignature001") (codes "viewSignature" ++ three_digits sequence)

-- `nonce` is what the counter gives, and `temp_dir` and `id` are of the process.
abbrev pub fixture_dir : FilePath → ℕ → ℕ → FilePath
fixture_dir temp_dir id nonce =
    join_path temp_dir
      (utf8 (codes "ajar-gateway-serving-test-" ++ (decimal id ++ (codes "-" ++ decimal nonce))))

module _ {S : Type 0} (fs : FileSystem S) where
  -- The next operation, where the one before it succeeded.
  abbrev and_then :
      Result IoErrorKind (Unit {0}) × S
      → (S → Result IoErrorKind (Unit {0}) × S)
      → Result IoErrorKind (Unit {0}) × S
  and_then (ok u, s) next = next s
  and_then (err e, s) next = (err e, s)

  abbrev pub rewrite_store_fixture :
      S → FilePath → ℕ → Text → Text → Text → Result IoErrorKind (Unit {0}) × S
  rewrite_store_fixture s dir sequence heading paragraph view_etag =
      let made = fs.create_dir_all s (join_path dir (codes "views")) in
      let with_manifest = and_then made (λ s'.
        fs.write s' (join_path dir (codes "manifest.json")) (utf8 (fixture_manifest sequence))) in
      let with_index = and_then with_manifest (λ s'.
        fs.write s' (join_path dir (codes "view-index.json")) (utf8 (fixture_index view_etag))) in
      and_then with_index (λ s'.
        fs.write s' (join_path (join_path dir (codes "views")) (codes "article.json"))
          (utf8 (fixture_view sequence heading paragraph view_etag)))

  abbrev pub write_store_fixture : S → FilePath → ℕ → ℕ → Result IoErrorKind (Unit {0}) × S
  write_store_fixture s temp_dir id nonce =
      rewrite_store_fixture s (fixture_dir temp_dir id nonce) 1 (codes "Example Notes")
        (codes "Signed notes for readers and agents.") (codes "view-article-001")
