-- ===== src/Transport/Http/Headers/Termination.antt =====
-- Reading the headers ends.
use hap_rust.Common.{
  ℕ, ◌≢◌, List, [], ◌∷◌, Option, none, some, stuck, ok-ne-stuck, err-ne-stuck, ok_or-ne-stuck,
  guard-ne-stuck, bind-ne-stuck, if-ne-stuck, Option-cases, inl, inr, is_utf8,
}
use hap_rust.Crypto.PairVerify.{bytes_eq}
use hap_rust.Transport.Text.{trim, from_utf8_lossy, to_ascii_lowercase, from_str_radix}
use hap_rust.Transport.Http.Scan.{starts_with, split}
use hap_rust.Transport.Http.Headers.{
  Head, content_type_name, content_length_name, transfer_encoding_name, chunked_value, cut_colon,
  with_length, read_field, read_line, read_lines, code_part, parse_status_code, read_block,
}

with_length-ne-stuck : (head : Head) (o : Option ℕ) → with_length head o ≢ stuck
with_length-ne-stuck head none e = cc
with_length-ne-stuck head (some n) e = cc

read_field-ne-stuck : (name value : List ℕ) (head : Head) → read_field name value head ≢ stuck
unfolding read_field
read_field-ne-stuck name value head =
    if-ne-stuck (bytes_eq name content_type_name) _ _ (ok-ne-stuck _) (
      if-ne-stuck (bytes_eq name content_length_name) _ _ (with_length-ne-stuck head _) (
        if-ne-stuck (bytes_eq name transfer_encoding_name) _ _
          (if-ne-stuck (bytes_eq (to_ascii_lowercase value) chunked_value) _ _ (ok-ne-stuck _)
            (err-ne-stuck _))
          (ok-ne-stuck _)))

read_line-ne-stuck : (line : List ℕ) (head : Head) → read_line line head ≢ stuck
unfolding read_line
read_line-ne-stuck line head e = elim (Option-cases (cut_colon line)) [
  | inl n ↦ let e' = rw (n, read_line) at e in cc
  | inr ((name, value), s) ↦
      read_field-ne-stuck (to_ascii_lowercase (trim (from_utf8_lossy name)))
        (trim (from_utf8_lossy value)) head (rw (s, read_line) at e)
]

read_lines-ne-stuck : (lines : List (List ℕ)) (head : Head) → read_lines lines head ≢ stuck
unfolding read_lines
read_lines-ne-stuck [] head = ok-ne-stuck head
read_lines-ne-stuck (line ∷ rest) head =
    bind-ne-stuck (read_line line head) _ (read_line-ne-stuck line head)
      (λ h. read_lines-ne-stuck rest h)

code_part-ne-stuck : (parts : List (List ℕ)) → code_part parts ≢ stuck
code_part-ne-stuck [] e = cc
code_part-ne-stuck (a ∷ []) e = cc
code_part-ne-stuck (a ∷ b ∷ rest) e = cc

pub read_block-ne-stuck :
    (prefix : List ℕ) (lines : List (List ℕ)) → read_block prefix lines ≢ stuck
unfolding read_block parse_status_code
read_block-ne-stuck prefix [] = err-ne-stuck _
read_block-ne-stuck prefix (start ∷ lines) =
    bind-ne-stuck _ _ (guard-ne-stuck (starts_with prefix start) _) (λ u.
      bind-ne-stuck (parse_status_code start) _
        (bind-ne-stuck _ _ (code_part-ne-stuck (split 32 start)) (λ code.
          bind-ne-stuck _ _ (guard-ne-stuck (is_utf8 code) _)
            (λ v. ok_or-ne-stuck (from_str_radix 10 0xFFFF code) _)))
        (λ status. bind-ne-stuck _ _ (read_lines-ne-stuck lines _) (λ head. ok-ne-stuck _)))
