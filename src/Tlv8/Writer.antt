-- ===== src/Tlv8/Writer.antt =====
-- crates/hap-tlv8/src/writer.rs: `Tlv8Writer`. The borrowed buffer `out` is an argument, and each
-- method returns it as it stands afterwards. A `&str` is given by its UTF-8 bytes.
use hap_rust.Common.{ℕ, List, [], ◌∷◌, ◌++◌, chunks, length, to_le_bytes, ◌==◌, if◌then◌else◌}
use hap_rust.Tlv8.Types.{separator}

-- The loop over the chunks: the buffer and `last_chunk_len` after it.
unfoldable pub push_chunks : ℕ → List (List ℕ) → List ℕ × ℕ → List ℕ × ℕ
push_chunks ty [] (out, last_chunk_len) = (out, last_chunk_len)
push_chunks ty (chunk ∷ cs) (out, last_chunk_len) =
    push_chunks ty cs (out ++ ty ∷ length chunk ∷ chunk, length chunk)

unfoldable pub push : List ℕ → ℕ → List ℕ → List ℕ
unfolding push_chunks
push out ty [] = out ++ ty ∷ 0 ∷ []
push out ty (b ∷ bs) =
    let (out', last_chunk_len) = push_chunks ty (chunks 255 (b ∷ bs)) (out, 0) in
    if last_chunk_len == 255 then out' ++ ty ∷ 0 ∷ [] else out'

unfoldable pub push_u8 : List ℕ → ℕ → ℕ → List ℕ
push_u8 out ty v = push out ty (to_le_bytes 1 v)

unfoldable pub push_u16 : List ℕ → ℕ → ℕ → List ℕ
push_u16 out ty v = push out ty (to_le_bytes 2 v)

unfoldable pub push_u32 : List ℕ → ℕ → ℕ → List ℕ
push_u32 out ty v = push out ty (to_le_bytes 4 v)

unfoldable pub push_u64 : List ℕ → ℕ → ℕ → List ℕ
push_u64 out ty v = push out ty (to_le_bytes 8 v)

unfoldable pub push_str : List ℕ → ℕ → List ℕ → List ℕ
push_str out ty v = push out ty v

unfoldable pub push_separator : List ℕ → List ℕ
push_separator out = out ++ separator ∷ 0 ∷ []
