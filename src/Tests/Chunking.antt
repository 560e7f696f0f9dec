-- ===== src/Tests/Chunking.antt =====
-- The chunking of a few bytes, and a cut with small sizes.
use orlop.Prelude.{text, some, List, [], ◌∷◌, ◌≡◌, refl, arith}
use orlop.Chunking.{
  CutParams, Chunk, cut_within, scan, gear_ls, v2020_cut, chunk_bytes, chunk_params,
}
use orlop.Chunking.Table.{gear, get_elem?}
use orlop.Chunking.Cover.{Covers, chunk_bytes-Covers}

abbrev small_params : CutParams
small_params = record {
  min_size = 2;
  avg_size = 4;
  max_size = 8;
  mask_s = 1;
  mask_l = 1;
  mask_s_ls = 3;
  mask_l_ls = 3;
}

-- The cut lies in the second phase.
cut_of_bytes :
    v2020_cut small_params (111 ∷ 122 ∷ 155 ∷ 210 ∷ 31 ∷ 130 ∷ 251 ∷ 138 ∷ 47 ∷ 234 ∷ []) ≡ some 5
unfolding v2020_cut cut_within scan gear_ls gear get_elem?
cut_of_bytes = refl

chunk_bytes-Covers_example :
    (cs : List Chunk) × (chunk_bytes (λ b. b) (text "some bytes") ≡ some cs)
    × Covers (λ b. b) chunk_params 0 (text "some bytes") cs
chunk_bytes-Covers_example =
    chunk_bytes-Covers (λ b. b) (text "some bytes") (λ e. ground (arith, e)) (omega arith)
