-- ===== src/Protocol/Payload.antt =====
-- The payload of a message with a record: its tags, its data and its auxiliary data, one after the
-- other (`SplitPayloadForMessage` of src/log/utils.cpp).
use ixe.Prelude.{
  ℕ, zero, suc, ◌+◌, ◌*◌, ◌/◌, ◌%◌, ◌^◌, ◌<◌, ◌≡◌, refl, sym, ap, ◌∙◌, List, [], ◌∷◌, ◌++◌,
  append-nil, append_assoc, length, length-append, take, drop, arith,
}
use ixe.Protocol.{SharedLogMessage, num_tags, aux_data_size, sub_size}

-- Words of `n` bytes in memory, on a little-endian machine.
unfoldable pub read_word : List ℕ → ℕ
read_word [] = 0
read_word (b ∷ bs) = b + read_word bs * 256

unfoldable pub write_word : ℕ → ℕ → List ℕ
write_word zero x = []
write_word (suc n) x = x % 256 ∷ write_word n (x / 256)

-- A span of `n` numbers of 64 bits.
unfoldable pub read_tags : ℕ → List ℕ → List ℕ
read_tags zero bytes = []
read_tags (suc n) bytes = read_word (take 8 bytes) ∷ read_tags n (drop 8 bytes)

-- `VECTOR_AS_CHAR_SPAN` of the tags.
unfoldable pub write_tags : List ℕ → List ℕ
write_tags [] = []
write_tags (t ∷ ts) = write_word 8 t ++ write_tags ts

-- `*user_tags`, `*log_data` and `*aux_data`, none of which is null.
unfoldable pub split_payload_for_message : SharedLogMessage → List ℕ → List ℕ × List ℕ × List ℕ
split_payload_for_message m payload =
    let log_data_size = sub_size (sub_size m.payload_size (num_tags m * 8)) (aux_data_size m) in
    let after_tags = drop (num_tags m * 8) payload in
    (
      read_tags (num_tags m) payload,
      take log_data_size after_tags,
      take (aux_data_size m) (drop log_data_size after_tags),
    )

-- Numbers of `n` bytes.
abbrev pub Fits : ℕ → ℕ → Type 0
Fits zero x = x ≡ 0
Fits (suc n) x = Fits n (x / 256)

abbrev pub AllTags : List ℕ → Type 0
AllTags [] = Unit {0}
AllTags (t ∷ ts) = (t < 2 ^ 64) × AllTags ts

read_word-write_word : (n x : ℕ) → Fits n x → read_word (write_word n x) ≡ x
unfolding read_word write_word
read_word-write_word zero x h = sym h
read_word-write_word (suc n) x h = omega (arith, read_word-write_word n (x / 256) h)

length-write_word : (n x : ℕ) → length (write_word n x) ≡ n
unfolding write_word
length-write_word zero x = refl
length-write_word (suc n) x = ap suc (length-write_word n (x / 256))

tag-Fits : (t : ℕ) → t < 2 ^ 64 → Fits 8 t
tag-Fits t h = omega arith

module _ {ℓ} {A : Type ℓ} where
  take-append : (xs ys : List A) → take (length xs) (xs ++ ys) ≡ xs
  take-append [] ys = refl
  take-append (x ∷ xs) ys = ap (λ l. x ∷ l) (take-append xs ys)

  drop-append : (xs ys : List A) → drop (length xs) (xs ++ ys) ≡ ys
  drop-append [] ys = refl
  drop-append (x ∷ xs) ys = drop-append xs ys

  -- With the length as it is written in a message.
  take_of : (n : ℕ) (xs ys : List A) → n ≡ length xs → take n (xs ++ ys) ≡ xs
  take_of n xs ys e = ap (λ k. take k (xs ++ ys)) e ∙ take-append xs ys

  drop_of : (n : ℕ) (xs ys : List A) → n ≡ length xs → drop n (xs ++ ys) ≡ ys
  drop_of n xs ys e = ap (λ k. drop k (xs ++ ys)) e ∙ drop-append xs ys

length-write_tags : (ts : List ℕ) → length (write_tags ts) ≡ length ts * 8
unfolding write_tags
length-write_tags [] = refl
length-write_tags (t ∷ ts) = omega (
  arith,
  length-append (write_word 8 t) (write_tags ts),
  length-write_word 8 t,
  length-write_tags ts,
)

read_tags-write_tags :
    (ts rest : List ℕ) → AllTags ts → read_tags (length ts) (write_tags ts ++ rest) ≡ ts
unfolding read_tags write_tags
read_tags-write_tags [] rest a = refl
read_tags-write_tags (t ∷ ts) rest a =
    let w = write_word 8 t in
    let more = write_tags ts ++ rest in
    let eight : 8 ≡ length w = sym (length-write_word 8 t) in
    ap (λ l. read_word (take 8 l) ∷ read_tags (length ts) (drop 8 l))
      (append_assoc w (write_tags ts) rest)
    ∙ ap (λ l. read_word l ∷ read_tags (length ts) (drop 8 (w ++ more))) (take_of 8 w more eight)
    ∙ ap (λ k. k ∷ read_tags (length ts) (drop 8 (w ++ more)))
        (read_word-write_word 8 t (tag-Fits t a.0))
    ∙ ap (λ l. t ∷ read_tags (length ts) l) (drop_of 8 w more eight)
    ∙ ap (λ l. t ∷ l) (read_tags-write_tags ts rest a.1)

three_equal {ℓ} :
    {A : Type ℓ} {a a' b b' c c' : A}
    → a ≡ a'
    → b ≡ b'
    → c ≡ c'
    → ◌≡◌ {A = A × A × A} (a, b, c) (a', b', c')
three_equal {a = a} {a' = a'} {b = b} {b' = b'} {c = c} {c' = c'} e f g =
    ap (λ x. (x, b, c)) e ∙ ap (λ y. (a', y, c)) f ∙ ap (λ z. (a', b', z)) g

-- A payload that has tags, data and auxiliary data of the sizes that its message announces comes apart
-- into these.
pub split_payload_roundtrip :
    (m : SharedLogMessage) (tags data_bytes aux : List ℕ)
    → AllTags tags
    → num_tags m ≡ length tags
    → aux_data_size m ≡ length aux
    → m.payload_size ≡ length tags * 8 + length data_bytes + length aux
    → m.payload_size < 2 ^ 32
    → split_payload_for_message m (write_tags tags ++ (data_bytes ++ aux)) ≡ (tags, data_bytes, aux)
unfolding split_payload_for_message
split_payload_roundtrip m tags data_bytes aux a n x p b =
    let more = data_bytes ++ aux in
    let all = write_tags tags ++ more in
    let size = sub_size (sub_size m.payload_size (num_tags m * 8)) (aux_data_size m) in
    let data_size : size ≡ length data_bytes = omega (arith, n, x, p) in
    let tags_size : num_tags m * 8 ≡ length (write_tags tags) =
      omega (arith, n, length-write_tags tags) in
    let after : drop (num_tags m * 8) all ≡ more =
      drop_of (num_tags m * 8) (write_tags tags) more tags_size in
    let first : read_tags (num_tags m) all ≡ tags =
      ap (λ k. read_tags k all) n ∙ read_tags-write_tags tags more a in
    let second : take size (drop (num_tags m * 8) all) ≡ data_bytes =
      ap (take size) after ∙ take_of size data_bytes aux data_size in
    let third : take (aux_data_size m) (drop size (drop (num_tags m * 8) all)) ≡ aux =
      ap (λ l. take (aux_data_size m) (drop size l)) after
      ∙ ap (take (aux_data_size m)) (drop_of size data_bytes aux data_size)
      ∙ ap (take (aux_data_size m)) (sym (append-nil aux))
      ∙ take_of (aux_data_size m) aux [] x in
    three_equal first second third
