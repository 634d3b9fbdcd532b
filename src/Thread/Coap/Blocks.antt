-- ===== src/Thread/Coap/Blocks.antt =====
-- Block-wise responses: the blocks of an accessory that serves a payload come together again.
use hap_rust.Common.{
  ℕ, zero, suc, ◌+◌, ◌≤◌, ◌<◌, ◌≡◌, refl, ap, ◌∙◌, List, [], ◌∷◌, ◌++◌, append-nil, append_assoc,
  Option, none, some, Result, ok, Bool, true, false, length, drop, concat, arith,
}
use hap_rust.Thread.Types.{ThreadError}
use hap_rust.Thread.Coap.{
  BlockValue, Packet, acknowledgement, CoapRequest, CoapResponse, fetch_blocks, post, split_code,
}

abbrev more_than : List (List ℕ) → Bool
more_than [] = false
more_than (b ∷ bs) = true

module _ (blocks : List (List ℕ)) (size : ℕ) where
  -- A `2.04` response with block `num`, behind which `rest` is left.
  abbrev block_packet : (num : ℕ) (b : List ℕ) (rest : List (List ℕ)) → Packet
  block_packet num b rest = record {
    kind = acknowledgement;
    code = 68;
    message_id = 0;
    token = [];
    payload = b;
    block2 = some (record { num = num; more = more_than rest; size = size });
  }

  abbrev block_at : (num : ℕ) → List (List ℕ) → Packet
  block_at num [] = block_packet num [] []
  block_at num (b ∷ rest) = block_packet num b rest

  abbrev wanted : Option BlockValue → ℕ
  wanted none = 0
  wanted (some block) = block.num

  -- The accessory serves the block that is asked for; the number counts the exchanges.
  abbrev pub serve : CoapRequest → ℕ → Result ThreadError Packet × ℕ
  serve request s = let n = wanted request.block2 in (ok (block_at n (drop n blocks)), s + 1)

  abbrev pub changed : List ℕ → CoapResponse
  changed payload = record { class = 2; detail = 4; payload = payload }

  drop_next :
      (n : ℕ) (xs : List (List ℕ)) (b : List ℕ) (bs : List (List ℕ))
      → drop n xs ≡ b ∷ bs
      → drop (n + 1) xs ≡ bs
  drop_next n xs b bs e =
      let same : n + 1 ≡ suc n = omega arith in ap (λ t. drop t xs) same ∙ shifted n xs b bs e
    where
      shifted :
          (n : ℕ) (xs : List (List ℕ)) (b : List ℕ) (bs : List (List ℕ))
          → drop n xs ≡ b ∷ bs
          → drop (suc n) xs ≡ bs
      shifted zero [] b bs e = cc
      shifted zero (x ∷ xs) b bs e = cc
      shifted (suc n) [] b bs e = cc
      shifted (suc n) (x ∷ xs) b bs e = shifted n xs b bs e

  module _ (new_block : (num size : ℕ) → Option BlockValue)
      (fits : (num : ℕ)
        → num < length blocks
        → new_block num size ≡ some (record { num = num; more = false; size = size })) where
    fetched :
        (rest : List (List ℕ)) (num left : ℕ) (b full : List ℕ) (s : ℕ)
        → drop num blocks ≡ b ∷ rest
        → length rest ≤ left
        → num + length rest < length blocks
        → fetch_blocks serve new_block left size
            (block_packet num b rest)
            (some (record { num = num; more = more_than rest; size = size }))
            full
            s
          ≡ (ok (changed (full ++ concat rest)), s + length rest)
    unfolding fetch_blocks split_code
    fetched [] num zero b full s e h k = ground (arith, append-nil full)
    fetched [] num (suc left) b full s e h k = ground (arith, append-nil full)
    fetched (c ∷ cs) num zero b full s e h k = absurd (omega arith)
    fetched (c ∷ cs) num (suc left) b full s e h k =
        let next = drop_next num blocks b (c ∷ cs) e in
        let ih = fetched cs (num + 1) left c (full ++ c) (s + 1) next (omega arith) (omega arith) in
        rw (fetch_blocks, fits (num + 1) (omega arith), next)
          (ih ∙ ground (arith, append_assoc full c (concat cs)))

-- Where an accessory serves a payload in blocks, at most 1024 of them, and their Block2 options can be built, `post` returns the payload whole,
-- with the accessory's code, and asks for each block once.
pub post_fetches :
    (b : List ℕ) (rest : List (List ℕ)) (size : ℕ) (new_block : (num size : ℕ) → Option BlockValue)
    (payload : List ℕ)
    → ((num : ℕ)
        → num < length (b ∷ rest)
        → new_block num size ≡ some (record { num = num; more = false; size = size }))
    → length (b ∷ rest) ≤ 1024
    → post (serve (b ∷ rest) size) new_block payload 0
      ≡ (ok (changed (b ∷ rest) size (concat (b ∷ rest))), length (b ∷ rest))
unfolding post
post_fetches b rest size new_block payload fits few =
    fetched (b ∷ rest) size new_block fits rest 0 1023 b b 1 refl (omega arith) (omega arith)
    ∙ ground arith
