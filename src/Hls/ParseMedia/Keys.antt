-- ===== src/Hls/ParseMedia/Keys.antt =====
-- The key in force is complete.
use hyperflux.Common.{
  ℕ, ◌≡◌, refl, ◌⊎◌, inl, inr, ◌||◌, Option, none, some, List, [], ◌∷◌, Bool-cases, Option-cases,
  length,
}
use hyperflux.Libc.{Text, same_nocase}
use hyperflux.Extractor.Resolve.{resolve_url}
use hyperflux.Hls.{
  Enc, enc_none, enc_aes_128, enc_sample_aes, Failure, aes_without_uri, hls_aes_block,
}
use hyperflux.Hls.Attributes.{attr_get}
use hyperflux.Hls.Iv.{hls_parse_iv}
use hyperflux.Hls.Iv.Length.{hls_parse_iv-length}
use hyperflux.Hls.ParseMedia.{
  KeyState, aes_key, none_word, aes_word, sample_word, sample_ctr_word, key_of_method,
  media_apply_key,
}

-- What is read has the property, where it is read at all.
unfoldable pub IfRead : {A : Type 0} → (A → Type 0) → Failure ⊎ A → Type 0
IfRead P (inl e) = Unit {0}
IfRead P (inr x) = P x

unfoldable pub IsIv : Option (List ℕ) → Type 0
IsIv none = Unit {0}
IsIv (some iv) = length iv ≡ hls_aes_block

unfoldable pub HasKey : Option Text → Type 0
HasKey none = ⊥
HasKey (some url) = Unit {0}

unfoldable pub IsKeyOf : Enc → Option Text → Option (List ℕ) → Type 0
IsKeyOf enc_none key_url iv = (key_url ≡ none) × (iv ≡ none)
IsKeyOf enc_aes_128 key_url iv = HasKey key_url × IsIv iv
IsKeyOf enc_sample_aes key_url iv = ⊥

unfoldable pub IsKey : KeyState → Type 0
IsKey ks = IsKeyOf ks.enc ks.key_url ks.iv

aes_key-IsKey : (key_url attr : Text) → IfRead IsKey (aes_key key_url attr)
unfolding IfRead IsKey IsKeyOf HasKey IsIv aes_key
aes_key-IsKey key_url attr = elim (Option-cases (attr_get attr (b'I' ∷ b'V' ∷ []))) [
  | inl e ↦ rw (e, aes_key) (tt, tt)
  | inr (hex, e) ↦ elim (Option-cases (hls_parse_iv hex)) [
    | inl e' ↦ rw (e, aes_key) (rw e' tt)
    | inr (iv, e') ↦ rw (e, aes_key) (rw e' (tt, hls_parse_iv-length hex iv e'))
  ]
]

aes_method-IsKey :
    (base attr : Text) (uri : Option Text)
    → IfRead IsKey
        (elim uri [ none ↦ inl aes_without_uri | some u ↦ aes_key (resolve_url base u) attr ])
unfolding IfRead
aes_method-IsKey base attr none = tt
aes_method-IsKey base attr (some u) = aes_key-IsKey (resolve_url base u) attr

key_of_method-IsKey : (base attr method : Text) → IfRead IsKey (key_of_method base attr method)
unfolding key_of_method IfRead IsKey IsKeyOf
key_of_method-IsKey base attr method = elim (Bool-cases (same_nocase method none_word)) [
  | inl e ↦ rw e (refl, refl)
  | inr e ↦ elim (Bool-cases (same_nocase method aes_word)) [
    | inl e' ↦ rw (e, e') (aes_method-IsKey base attr (attr_get attr (b'U' ∷ b'R' ∷ b'I' ∷ [])))
    | inr e' ↦
        elim (Bool-cases (same_nocase method sample_word || same_nocase method sample_ctr_word)) [
          | inl e'' ↦ rw (e, e', e'') tt
          | inr e'' ↦ rw (e, e', e'') tt
        ]
  ]
]

-- A key tag that is accepted leaves a complete key: METHOD=NONE clears the URL and the vector, AES-128 has
-- a URL and a vector of 16 bytes or none, and no other method gets through.
pub media_apply_key-IsKey : (base attr : Text) → IfRead IsKey (media_apply_key base attr)
unfolding media_apply_key IfRead
media_apply_key-IsKey base attr =
    elim (Option-cases (attr_get attr (b'M' ∷ b'E' ∷ b'T' ∷ b'H' ∷ b'O' ∷ b'D' ∷ []))) [
      | inl e ↦ rw (e, media_apply_key) tt
      | inr (method, e) ↦ rw (e, media_apply_key) (key_of_method-IsKey base attr method)
    ]
