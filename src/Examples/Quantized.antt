-- ===== src/Examples/Quantized.antt =====
-- The theorems about vectors, at two vectors of two scalars each, and a copy that is the metric.
use ukv.Prelude.{ℕ, ◌+◌, ◌^◌, none, some, List, [], ◌∷◌}
use ukv.Types.{CollectionKey}
use ukv.Arguments.{PlacesArg}
use ukv.Paths.Bucket.{Bytes}
use ukv.Vectors.{Scalar, i8, VectorsArg, Match}

abbrev first_byte : Scalar → Bytes → ℕ
first_byte scalar [] = 0
first_byte scalar (b ∷ bytes) = b

abbrev first_metric : Bytes → Bytes → ℕ
first_metric query vector = first_byte i8 vector

abbrev two_vectors : VectorsArg
two_vectors = record {
  contents = some (λ i. 1 ∷ 2 ∷ 3 ∷ 4 ∷ []);
  offsets = none;
  vectors_stride = 2;
  scalar_type = i8;
  dimensions = 2;
  tasks_count = 2;
}

abbrev two_keys : PlacesArg
two_keys = record { collections_begin = none; keys_begin = some (λ i. 2 ^ 63 + 5); count = 2 }

abbrev wanted_key : CollectionKey
wanted_key = record { collection = 0; key = 2 ^ 63 + 5 }

abbrev two_slots : List (Match ℕ)
two_slots = record { key = 0; metric = 0 } ∷ record { key = 0; metric = 0 } ∷ []
