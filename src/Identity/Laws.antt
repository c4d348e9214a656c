-- ===== src/Identity/Laws.antt =====
-- Which requests share an identity.
use nirn_proxy.Identity.{
  bot, bearer, Identity, identify, by_scheme, anonymous, scheme_credential, cut_blank,
  identify_trimmed, numeric_id, bot_id_from_token, is_numeric_input, or_else,
}
use nirn_proxy.Base64.{decode_raw_std, decode_raw_url}
use nirn_proxy.Base.{
  ◌≡◌, refl, ◌⊎◌, inl, inr, true, Option, none, some, [], ◌∷◌, Bool-cases, Bytes, codes, cut,
  equal_fold, trim_space,
}

-- What `identify` can answer: the anonymous identity, or a token's, which is kept only as its hash.
abbrev pub IsIdentity : (Bytes → Bytes) → Identity → Type 0
IsIdentity sum256 i =
    (i ≡ anonymous)
    ⊎ ((credential : Bytes) × (i.key ≡ sum256 credential)
        × (((i.kind ≡ bearer) × (i.bot_id ≡ []))
            ⊎ ((i.kind ≡ bot)
                × (i.bot_id ≡ bot_id_from_token credential)
                × ((i.bot_id ≡ []) ⊎ (is_numeric_input i.bot_id ≡ true)))))

numeric_or_empty :
    (d : Option Bytes) → (numeric_id d ≡ []) ⊎ (is_numeric_input (numeric_id d) ≡ true)
numeric_or_empty none = inl refl
numeric_or_empty (some s) = elim (Bool-cases (is_numeric_input s)) [
  | inl e ↦ inr (rw e e)
  | inr e ↦ inl (rw e refl)
]

bot_id-numeric :
    (token : Bytes)
    → (bot_id_from_token token ≡ []) ⊎ (is_numeric_input (bot_id_from_token token) ≡ true)
unfolding bot_id_from_token
bot_id-numeric token =
    let encoded = (cut token b'.').0 in
    numeric_or_empty (or_else (decode_raw_std encoded) (decode_raw_url encoded))

by_scheme-IsIdentity :
    (sum256 : Bytes → Bytes) (scheme credential : Bytes)
    → IsIdentity sum256 (by_scheme sum256 (scheme, credential))
unfolding by_scheme
by_scheme-IsIdentity sum256 scheme credential =
    elim (Bool-cases (equal_fold scheme (codes "Basic"))) [
      | inl e ↦ rw e (inl refl)
      | inr e ↦ elim (Bool-cases (equal_fold scheme (codes "Bearer"))) [
        | inl f ↦ rw (e, f) (inr (credential, refl, inl (refl, refl)))
        | inr f ↦ elim (Bool-cases (equal_fold scheme (codes "Bot"))) [
          | inl g ↦
              rw (e, f, g) (inr (credential, refl, inr (refl, refl, bot_id-numeric credential)))
          | inr g ↦ rw (e, f, g) (inl refl)
        ]
      ]
    ]

trimmed-IsIdentity :
    (sum256 : Bytes → Bytes) (s : Bytes) → IsIdentity sum256 (identify_trimmed sum256 s)
unfolding identify_trimmed
trimmed-IsIdentity sum256 [] = inl refl
trimmed-IsIdentity sum256 (c ∷ s) =
    let sc = scheme_credential (cut_blank (c ∷ s)) in by_scheme-IsIdentity sum256 sc.0 sc.1

-- Every header is identified as anonymous, as a bearer token or as a bot token; of a token only its
-- hash is the key, and the bot's ID is empty or a text of digits.
identify-IsIdentity :
    (sum256 : Bytes → Bytes) (authorization : Bytes)
    → IsIdentity sum256 (identify sum256 authorization)
unfolding identify
identify-IsIdentity sum256 authorization = trimmed-IsIdentity sum256 (trim_space authorization)
