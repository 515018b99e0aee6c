-- ===== src/Conversion.antt =====
-- The conversion pipeline, crates/harvester, crates/extractor and crates/inducer: their errors, and
-- the interface of a harvest collector. No code of the repository calls them yet.
use ajar_gateway.Common.{List, [], ◌∷◌, Result, ok}
use ajar_gateway.Text.{Text, codes}
use ajar_gateway.Store.Model.{Bytes}

pub data HarvesterError : Type 0 where
  source_unavailable source_invalid : HarvesterError

abbrev pub harvester_error_text : HarvesterError → Text
harvester_error_text source_unavailable = codes "collector source unavailable"
harvester_error_text source_invalid = codes "collector source invalid"

pub record HarvestRecord : Type 0 where
  pub source_id : Text
  pub payload : Bytes

-- The trait `HarvestCollector`.
pub record HarvestCollector : Type 0 where
  pub collect : Result HarvesterError (List HarvestRecord)

-- The collector of the tests.
abbrev pub test_harvest_collector : HarvestCollector
test_harvest_collector = record {
  collect = ok (record { source_id = codes "test-source"; payload = b'{' ∷ b'}' ∷ [] } ∷ []);
}

pub data ExtractorError : Type 0 where
  invalid_input invalid_rule : ExtractorError

abbrev pub extractor_error_text : ExtractorError → Text
extractor_error_text invalid_input = codes "extractor input invalid"
extractor_error_text invalid_rule = codes "extraction rule invalid"

pub data InducerError : Type 0 where
  provider_unavailable invalid_artifact : InducerError

abbrev pub inducer_error_text : InducerError → Text
inducer_error_text provider_unavailable = codes "induction provider unavailable"
inducer_error_text invalid_artifact = codes "induced artifact invalid"
