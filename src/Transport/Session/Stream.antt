-- ===== src/Transport/Session/Stream.antt =====
-- From the writer's blocks to the reader's plaintext, however the wire is cut into reads.
use hap_rust.Common.{
  ℕ, zero, suc, ◌≤◌, ◌<◌, ◌≡◌, ◌≢◌, refl, sym, ap, ◌∙◌, List, [], ◌∷◌, ◌++◌, append_assoc,
  append-nil, append_split, none, ok, length, length-append, drop-append, All, chunks, concat,
  concat-chunks, chunks_short, arith,
}
use native.Mathlib.Decide.{dec_le}
use mathlib.Core.Path.{subst}
use hap_rust.Crypto.Aead.{Chacha, ChachaLaws}
use hap_rust.Transport.Record.{max_block, frame_len, encrypt_frame, decrypt_frame}
use hap_rust.Transport.Record.Frames.{
  encrypt_frame_fits, decrypt_frame-encrypt_frame, decrypt_frame_partial, length-frame,
}
use hap_rust.Transport.Session.{
  Sending, Reader, send_blocks, send, drain_frames, read_chunk, read_chunks,
}

module _ (c : Chacha) (laws : ChachaLaws c) (key : List ℕ) where
  -- The frames of a list of blocks, from the counter `n` to the counter `k`.
  data Frames : ℕ → List (List ℕ) → List ℕ → ℕ → Type 0 where
    done : {n : ℕ} → Frames n [] [] n
    next :
        {n m k : ℕ} {b : List ℕ} {bs : List (List ℕ)} {f w : List ℕ}
        → encrypt_frame c key n b ≡ (ok f, m)
        → Frames m bs w k
        → Frames n (b ∷ bs) (f ++ w) k

  send_blocks_step :
      (b : List ℕ) (bs : List (List ℕ)) (n : ℕ) (wire f : List ℕ) (m : ℕ)
      → encrypt_frame c key n b ≡ (ok f, m)
      → send_blocks c key (b ∷ bs) n wire ≡ send_blocks c key bs m (wire ++ f)
  unfolding send_blocks
  send_blocks_step b bs n wire f m e = ground (arith, e)

  -- Blocks that fit are all sent.
  send_blocks-Frames :
      (bs : List (List ℕ)) (n : ℕ) (wire : List ℕ)
      → All (λ b. length b ≤ max_block) bs
      → (w : List ℕ) × (k : ℕ) × (send_blocks c key bs n wire
          ≡ record { result = ok tt; counter = k; wire = wire ++ w })
        × Frames n bs w k
  send_blocks-Frames [] n wire h = (
    [],
    n,
    unfold send_blocks in
        ap (λ x. record { result = ok tt; counter = n; wire = x }) (sym (append-nil wire)),
    done,
  )
  send_blocks-Frames (b ∷ bs) n wire h =
      let (f, m, e) = encrypt_frame_fits c laws key n b h.0 in
      let (w, k, s, fs) = send_blocks-Frames bs m (wire ++ f) h.1 in
      (
        f ++ w,
        k,
        send_blocks_step b bs n wire f m e
            ∙ s
            ∙ ap (λ x. record { result = ok tt; counter = k; wire = x }) (append_assoc wire f w),
        next e fs,
      )

  drain_step :
      (fuel : ℕ) (buf rest plain : List ℕ) (n : ℕ) (b f : List ℕ) (m : ℕ)
      → encrypt_frame c key n b ≡ (ok f, m)
      → buf ≡ f ++ rest
      → drain_frames c key (suc fuel) (record { cipher_buf = buf; plain_buf = plain; counter = n })
        ≡ drain_frames c key fuel
            (record { cipher_buf = rest; plain_buf = plain ++ b; counter = m })
  unfolding drain_frames
  drain_step fuel buf rest plain n b f m e cut = rw cut (
      ground (
        arith,
        decrypt_frame-encrypt_frame c laws key n b f rest m e,
        drop-append (frame_len (length b)) f rest (sym (length-frame c laws key n b f m e)),
      ))

  drain_stop :
      (fuel : ℕ) (buf plain : List ℕ) (n : ℕ)
      → decrypt_frame c key n buf ≡ (ok none, n)
      → drain_frames c key (suc fuel) (record { cipher_buf = buf; plain_buf = plain; counter = n })
        ≡ ok (record { cipher_buf = buf; plain_buf = plain; counter = n })
  unfolding drain_frames
  drain_stop fuel buf plain n e = ground (arith, e)

  -- The reader behind some frames: `bs` are the blocks still to come, in the bytes `w` up to the
  -- counter `k`, of which `future` is on its way.
  record Behind (r : Reader) (future goal : List ℕ) (k : ℕ) : Type 0 where
    left : List (List ℕ)
    wire : List ℕ
    frames : Frames r.counter left wire k
    bytes : r.cipher_buf ++ future ≡ wire
    text : r.plain_buf ++ concat left ≡ goal

  -- With nothing on its way, nothing is left.
  abbrev IsDrained : {r : Reader} {future goal : List ℕ} {k : ℕ} → Behind r future goal k → Type 0
  IsDrained {future} b = future ≡ [] → b.left ≡ []

  -- What `drain_frames` makes of a reader behind some frames.
  abbrev Drains : ℕ → Reader → List ℕ → List ℕ → ℕ → Type 0
  Drains fuel r future goal k =
      (r' : Reader) × (b : Behind r' future goal k) × (drain_frames c key fuel r ≡ ok r')
      × IsDrained b

  nil_of_append : (xs ys : List ℕ) → xs ++ ys ≡ [] → xs ≡ []
  nil_of_append [] ys e = refl
  nil_of_append (x ∷ xs) ys e = cc

  stop_at_end :
      (fuel : ℕ) (buf plain : List ℕ) (n : ℕ) (future goal : List ℕ)
      → buf ++ future ≡ []
      → plain ++ [] ≡ goal
      → Drains
          (suc fuel)
          (record { cipher_buf = buf; plain_buf = plain; counter = n })
          future
          goal
          n
  stop_at_end fuel buf plain n future goal bytes text = (
    record { cipher_buf = buf; plain_buf = plain; counter = n },
    record { left = []; wire = []; frames = done; bytes = bytes; text = text },
    drain_stop fuel buf plain n
        (rw (nil_of_append buf future bytes) (unfold decrypt_frame in refl)),
    λ e. refl,
  )

  stop_in_frame :
      (fuel : ℕ) (buf plain : List ℕ) (n m k : ℕ) (b : List ℕ) (bs : List (List ℕ))
      (vs w future goal : List ℕ)
      → encrypt_frame c key n b ≡ (ok (buf ++ vs), m)
      → vs ≢ []
      → Frames n (b ∷ bs) ((buf ++ vs) ++ w) k
      → future ≡ vs ++ w
      → plain ++ concat (b ∷ bs) ≡ goal
      → Drains
          (suc fuel)
          (record { cipher_buf = buf; plain_buf = plain; counter = n })
          future
          goal
          k
  stop_in_frame fuel buf plain n m k b bs vs w future goal e more fs later text = (
    record { cipher_buf = buf; plain_buf = plain; counter = n },
    record {
      left = b ∷ bs;
      wire = (buf ++ vs) ++ w;
      frames = fs;
      bytes = ap (λ t. buf ++ t) later ∙ sym (append_assoc buf vs w);
      text = text;
    },
    drain_stop fuel buf plain n (decrypt_frame_partial c laws key n b buf vs m e more),
    λ none_left. absurd (more (nil_of_append vs w (sym later ∙ none_left))),
  )

  frame_longer : (buf f vs : List ℕ) → ¬ (length f ≤ length buf) → f ≡ buf ++ vs → vs ≢ []
  frame_longer buf f vs short cut e =
      absurd (omega (arith, ap length cut, ap length e, length-append buf vs))

  drain-Behind :
      (fuel : ℕ) (buf plain : List ℕ) {n : ℕ} {bs : List (List ℕ)} {w : List ℕ} {k : ℕ}
      (future goal : List ℕ)
      → Frames n bs w k
      → buf ++ future ≡ w
      → plain ++ concat bs ≡ goal
      → length buf < fuel
      → Drains fuel (record { cipher_buf = buf; plain_buf = plain; counter = n }) future goal k
  drain-Behind zero buf plain future goal fs bytes text h = absurd (omega arith)
  drain-Behind (suc fuel) buf plain {n} future goal done bytes text h =
      stop_at_end fuel buf plain n future goal bytes text
  drain-Behind (suc fuel) buf plain {k = k} future goal
        (next {n} {m} {b = b} {bs = bs} {f = f} {w = w} e fs) bytes text h =
      elim (dec_le (length f) (length buf)) [
        | yes whole ↦
            let (ws, cut, later) = append_split f w buf future (sym bytes) whole in
            let (r, behind, runs, drained) =
              drain-Behind fuel ws (plain ++ b) future goal fs (sym later)
                (append_assoc plain b (concat bs) ∙ text)
                (omega
                  (arith, ap length cut, length-append f ws, length-frame c laws key n b f m e)) in
            (r, behind, drain_step fuel buf ws plain n b f m e cut ∙ runs, drained)
        | no short ↦
            let (vs, cut, later) = append_split buf future f w bytes (omega arith) in
            stop_in_frame fuel buf plain n m k b bs vs w future goal (e ∙ ap (λ t. (ok t, m)) cut)
              (frame_longer buf f vs short cut)
              (subst (λ t. Frames n (b ∷ bs) (t ++ w) k) cut (next e fs)) later text
      ]

  read_chunk-Behind :
      (r : Reader) (chunk future goal : List ℕ) (k : ℕ)
      → Behind r (chunk ++ future) goal k
      → (r' : Reader) × (b : Behind r' future goal k) × (read_chunk c key r chunk ≡ ok r')
        × IsDrained b
  unfolding read_chunk
  read_chunk-Behind r chunk future goal k b =
      drain-Behind (suc (length (r.cipher_buf ++ chunk))) (r.cipher_buf ++ chunk) r.plain_buf future
        goal b.frames (append_assoc r.cipher_buf chunk future ∙ b.bytes) b.text (omega arith)

  at_end :
      {n : ℕ} {bs : List (List ℕ)} {w : List ℕ} {k : ℕ}
      → Frames n bs w k
      → bs ≡ []
      → (w ≡ []) × (n ≡ k)
  at_end done e = (refl, refl)
  at_end (next x fs) e = cc

  finished :
      (r : Reader) (goal : List ℕ) (k : ℕ) (b : Behind r [] goal k)
      → IsDrained b
      → r ≡ record { cipher_buf = []; plain_buf = goal; counter = k }
  finished r goal k b drained =
      let (empty, last) = at_end b.frames (drained refl) in
      ground (
        arith,
        empty,
        last,
        b.bytes,
        b.text,
        append-nil r.cipher_buf,
        append-nil r.plain_buf,
        drained refl,
      )

  read_chunks-Behind :
      (chunks : List (List ℕ)) (r : Reader) (goal : List ℕ) (k : ℕ)
      (b : Behind r (concat chunks) goal k)
      → IsDrained b
      → read_chunks c key r chunks ≡ ok (record { cipher_buf = []; plain_buf = goal; counter = k })
  unfolding read_chunks
  read_chunks-Behind [] r goal k b drained = ap ok (finished r goal k b drained)
  read_chunks-Behind (chunk ∷ cs) r goal k b drained =
      let (r', b', e, drained') = read_chunk-Behind r chunk (concat cs) goal k b in
      rw (e, read_chunks) (read_chunks-Behind cs r' goal k b' drained')

  nothing_sent :
      {n : ℕ} {bs : List (List ℕ)} {w : List ℕ} {k : ℕ} → Frames n bs w k → w ≡ [] → bs ≡ []
  nothing_sent done e = refl
  nothing_sent (next {n} {m} {b = b} {f = f} {w = w} x fs) e =
      absurd (omega (arith, ap length e, length-append f w, length-frame c laws key n b f m x))

  -- Every plaintext is sent, and a reader at the writer's counter gets it back whole: however the
  -- socket cuts the bytes of the frames into reads, all of them are decrypted, no byte is left over,
  -- and the reader's counter ends where the writer's does.
  pub read_chunks-send :
      (plaintext : List ℕ) (counter : ℕ) (before : List ℕ) (reads : List (List ℕ))
      → concat reads ≡ (send c key plaintext counter).wire
      → ((send c key plaintext counter).result ≡ ok tt)
        × (read_chunks c key
              (record { cipher_buf = []; plain_buf = before; counter = counter })
              reads
            ≡ ok (record {
              cipher_buf = [];
              plain_buf = before ++ plaintext;
              counter = (send c key plaintext counter).counter;
            }))
  unfolding send
  read_chunks-send plaintext counter before reads e =
      let (w, k, sent, fs) =
        send_blocks-Frames (chunks max_block plaintext) counter []
          (chunks_short max_block plaintext) in
      let wire : concat reads ≡ w = e ∙ ap (λ (s : Sending). s.wire) sent in
      let b : Behind (record { cipher_buf = []; plain_buf = before; counter = counter })
          (concat reads) (before ++ plaintext) k =
        record {
          left = chunks max_block plaintext;
          wire = w;
          frames = fs;
          bytes = wire;
          text = ap (λ t. before ++ t) (concat-chunks max_block plaintext (omega arith));
        } in
      rw sent (
        refl,
        read_chunks-Behind reads _ (before ++ plaintext) k b
            (λ none_left. nothing_sent fs (sym wire ∙ none_left)),
      )
