-- ===== src/Attachments/Tests.antt =====
-- Attachments at concrete inputs: the digest of "abc" in two reads, and two uploads of it.
use uni_mailbox.Prelude.{
  ℕ, zero, suc, true, List, [], ◌∷◌, none, some, ◌==◌, if◌then◌else◌, ◌≡◌, refl,
}
use uni_mailbox.Domain.{Result, ok}
use uni_mailbox.Attachments.Md5.{
  md5_hex, output, initial_words, transform, update_each, update, absorb, hex, hex_text, padding,
}
use uni_mailbox.Attachments.Md5.Chunks.{rfc_md5, tail_of, md5_hex-eq-rfc_md5}
use uni_mailbox.Attachments.Bodies.{stream, same_bytes, bodies_equal}
use uni_mailbox.Attachments.Bodies.Equal.{bodies_equal-stream}
use uni_mailbox.Attachments.Catalog.{
  Files, FileRow, FileRecord, base, store_attachment_file, insert_stored_file,
  find_identical_candidate, register_stored_file, insert_file,
}
use uni_mailbox.Attachments.Catalog.Bytes.{bytes_at, store_attachment_file-bytes}

-- floor(abs(sin(i + 1)) * 2 ^ 32)
abbrev sines : List ℕ
sines =
    0xd76aa478 ∷ 0xe8c7b756 ∷ 0x242070db ∷ 0xc1bdceee ∷ 0xf57c0faf ∷ 0x4787c62a ∷ 0xa8304613
    ∷ 0xfd469501 ∷ 0x698098d8 ∷ 0x8b44f7af ∷ 0xffff5bb1 ∷ 0x895cd7be ∷ 0x6b901122 ∷ 0xfd987193
    ∷ 0xa679438e ∷ 0x49b40821 ∷ 0xf61e2562 ∷ 0xc040b340 ∷ 0x265e5a51 ∷ 0xe9b6c7aa ∷ 0xd62f105d
    ∷ 0x2441453 ∷ 0xd8a1e681 ∷ 0xe7d3fbc8 ∷ 0x21e1cde6 ∷ 0xc33707d6 ∷ 0xf4d50d87 ∷ 0x455a14ed
    ∷ 0xa9e3e905 ∷ 0xfcefa3f8 ∷ 0x676f02d9 ∷ 0x8d2a4c8a ∷ 0xfffa3942 ∷ 0x8771f681 ∷ 0x6d9d6122
    ∷ 0xfde5380c ∷ 0xa4beea44 ∷ 0x4bdecfa9 ∷ 0xf6bb4b60 ∷ 0xbebfbc70 ∷ 0x289b7ec6 ∷ 0xeaa127fa
    ∷ 0xd4ef3085 ∷ 0x4881d05 ∷ 0xd9d4d039 ∷ 0xe6db99e5 ∷ 0x1fa27cf8 ∷ 0xc4ac5665 ∷ 0xf4292244
    ∷ 0x432aff97 ∷ 0xab9423a7 ∷ 0xfc93a039 ∷ 0x655b59c3 ∷ 0x8f0ccc92 ∷ 0xffeff47d ∷ 0x85845dd1
    ∷ 0x6fa87e4f ∷ 0xfe2ce6e0 ∷ 0xa3014314 ∷ 0x4e0811a1 ∷ 0xf7537e82 ∷ 0xbd3af235 ∷ 0x2ad7d2bb
    ∷ 0xeb86d391 ∷ []

abbrev nth : List ℕ → ℕ → ℕ
nth [] n = 0
nth (x ∷ xs) zero = x
nth (x ∷ xs) (suc n) = nth xs n

-- What the standard has for "abc".
abc_digest :
    md5_hex (nth sines) ((97 ∷ []) ∷ (98 ∷ 99 ∷ []) ∷ [])
    ≡ ok (
        57 ∷ 48 ∷ 48 ∷ 49 ∷ 53 ∷ 48 ∷ 57 ∷ 56 ∷ 51 ∷ 99 ∷ 100 ∷ 50 ∷ 52 ∷ 102 ∷ 98 ∷ 48 ∷ 100 ∷ 54
        ∷ 57 ∷ 54 ∷ 51 ∷ 102 ∷ 55 ∷ 100 ∷ 50 ∷ 56 ∷ 101 ∷ 49 ∷ 55 ∷ 102 ∷ 55 ∷ 50 ∷ [])
unfolding md5_hex transform update_each update absorb hex hex_text padding
abc_digest = refl

md5_hex-eq-rfc_md5_example :
    md5_hex (nth sines) ((97 ∷ []) ∷ (98 ∷ 99 ∷ []) ∷ [])
    ≡ ok (rfc_md5 (nth sines) (97 ∷ 98 ∷ 99 ∷ []))
md5_hex-eq-rfc_md5_example = md5_hex-eq-rfc_md5 (nth sines) ((97 ∷ []) ∷ (98 ∷ 99 ∷ []) ∷ [])

bodies_equal-stream_example :
    bodies_equal
      (stream ((97 ∷ 98 ∷ []) ∷ [] ∷ (99 ∷ []) ∷ []))
      (stream ((97 ∷ []) ∷ (98 ∷ 99 ∷ []) ∷ []))
    ≡ some (same_bytes (97 ∷ 98 ∷ 99 ∷ []) (97 ∷ 98 ∷ 99 ∷ []))
bodies_equal-stream_example =
    bodies_equal-stream ((97 ∷ 98 ∷ []) ∷ [] ∷ (99 ∷ []) ∷ []) ((97 ∷ []) ∷ (98 ∷ 99 ∷ []) ∷ [])

abbrev zeros : ℕ → ℕ
zeros n = 0

abbrev no_files : Files
no_files = record { files = []; uploads = []; attached = []; store = λ k. none }

abbrev first_upload : Files × Result FileRecord
first_upload = store_attachment_file zeros 1 10 (stream ((97 ∷ 98 ∷ []) ∷ [])) 2 2 no_files

abbrev first_record : FileRecord
first_record = record {
  file_id = 1;
  object_key = 10;
  md5 = output (transform zeros (97 ∷ 98 ∷ tail_of 2) initial_words);
  size_bytes = 2;
  created = true;
}

store_attachment_file-bytes_example : bytes_at (first_upload.0.store 10) ≡ some (97 ∷ 98 ∷ [])
unfolding store_attachment_file md5_hex update_each update hex absorb register_stored_file
    find_identical_candidate insert_stored_file insert_file padding
store_attachment_file-bytes_example =
    store_attachment_file-bytes zeros 1 10 2 2 ((97 ∷ 98 ∷ []) ∷ []) no_files first_upload.0
      first_record (λ k. tt) refl

abbrev digest : List ℕ
digest = 5 ∷ []

abbrev file : FileRow
file = record {
  id = 1;
  object_key = 10;
  dedupe_key = base digest 2;
  md5 = some digest;
  size_bytes = 2;
}

abbrev one_file : Files
one_file = record {
  files = file ∷ [];
  uploads = [];
  attached = record { id = 4; message_id = 5; file_id = some 1; object_key = 10 } ∷ [];
  store = λ k.
      if k == 10 then some (record { body = stream ((97 ∷ 98 ∷ []) ∷ []); size = 2 }) else none;
}
