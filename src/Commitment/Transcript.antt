-- ===== src/Commitment/Transcript.antt =====
-- horizon/commitment.py: the hash chain over a transcript, recomputed and compared.
use horizon_protocol.Prelude.{
  ◌≡◌, ◌↔◌, refl, Bool-cases, inl, inr, String, text_key, same_key, eq_iff, List, [], ◌∷◌, ◌++◌,
  none, arith,
}
use horizon_protocol.Commitment.{
  Round, chain_from, mismatch_from, chain_transcript, verify_transcript_chain,
}

module _ (link : String → Round → String) where
  matches_iff :
      (prev : String) (rounds : List Round) (claimed : List String)
      → (mismatch_from link prev rounds claimed ≡ none)
        ↔ ((rest : List String) × (claimed ≡ chain_from link prev rounds ++ rest))
  unfolding mismatch_from chain_from
  matches_iff prev [] claimed = (λ h. (claimed, refl), λ h. refl)
  matches_iff prev (rec ∷ rounds) [] = (λ h. cc, λ (rest, e). cc)
  matches_iff prev (rec ∷ rounds) (hash ∷ claimed) =
      let further = matches_iff (link prev rec) rounds claimed in
      let here = eq_iff (link prev rec) hash in
      elim (Bool-cases (same_key (link prev rec) hash)) [
        | inl same ↦ (
          λ h. let (rest, e) = further.0 (ground arith) in let first = here.0 same in (rest, cc),
          λ (rest, e).
              let tail : claimed ≡ chain_from link (link prev rec) rounds ++ rest = cc in
              rw same (further.1 (rest, tail)),
        )
        | inr other ↦ (
          λ h. absurd (ground arith),
          λ (rest, e).
              let first : link prev rec ≡ hash = cc in
              let same = here.1 first in absurd (ground arith),
        )
      ]

  -- A transcript passes exactly when its hash chain is the beginning of the claimed hashes: they
  -- may go on after it.
  pub verify_transcript_chain_iff :
      (genesis_hash : String) (rounds : List Round) (claimed : List String)
      → (verify_transcript_chain link genesis_hash rounds claimed ≡ none)
        ↔ ((rest : List String) × (claimed ≡ chain_transcript link genesis_hash rounds ++ rest))
  unfolding verify_transcript_chain chain_transcript
  verify_transcript_chain_iff genesis_hash rounds claimed = matches_iff genesis_hash rounds claimed
