-- ===== src/Common/Token/Reuse.antt =====
-- Which service tokens are kept, and for how long they are used again (common/m2m_auth.py).
use wso2_teamspace_demo.Base.{
  ℕ, ◌+◌, String, ◌≡◌, true, false, Option, none, some, List, Dict, member, ltb, if◌then◌else◌,
  arith, ==-self, inl, inr, refl, sym, Bool, ◌||◌,
}
use wso2_teamspace_demo.Base.Json.{Json, Fields, obj, null, num, str, truthy, field_of}
use wso2_teamspace_demo.Base.Values.{value_or, or_value}
use wso2_teamspace_demo.Base.Run.{ok, Result-cases}
use wso2_teamspace_demo.Base.Number.{int_of_text}
use wso2_teamspace_demo.Common.Token.{
  M2mConfig, TokenWorld, Answer, is_usable, same_key, cached, entry_of, store_token, lifetime_of,
  granted_words, handle_payload, request_token, get_token,
}

-- A kept token: the answer names it, and grants the scope that was asked for.
pub record IsGranted (c : M2mConfig) (fs : Fields) (token : Json) : Type 0 where
  pub granted : List String
  pub named : field_of "access_token" fs ≡ some token
  pub listed : granted_words (or_value (value_or null (field_of "scope" fs)) (str "")) ≡ ok granted
  pub scoped : member c.scope granted ≡ true

value_or-truthy : (o : Option Json) → truthy (value_or null o) ≡ true → o ≡ some (value_or null o)
value_or-truthy none h = cc
value_or-truthy (some v) h = refl

-- A token comes out of an answer only if the answer names it and grants the scope asked for; it is
-- kept then, and an answer that gives none changes nothing.
pub handle_payload_lem :
    (c : M2mConfig) (fs : Fields) (w : TokenWorld) (token : Json)
    → (handle_payload c (obj fs) w).0 ≡ ok (some token)
    → IsGranted c fs token
      × ((handle_payload c (obj fs) w).1
          ≡ store_token c token (value_or null (field_of "expires_in" fs)) w)
unfolding handle_payload
handle_payload_lem c fs w token h =
    elim (Result-cases (granted_words (or_value (value_or null (field_of "scope" fs)) (str "")))) [
      | inr (e, failed) ↦ absurd (ground arith)
      | inl (granted, listed) ↦ (
        record {
          granted = granted;
          named = ground (arith, value_or-truthy (field_of "access_token" fs));
          listed = listed;
          scoped = ground arith;
        },
        ground arith,
      )
    ]

-- What `expires_in` says in seconds: a number, or a text that reads as one, and 300 where there is none.
abbrev pub IsLifetime : Option Json → ℕ → Type 0
IsLifetime none n = n ≡ 300
IsLifetime (some null) n = n ≡ 300
IsLifetime (some (num m)) n = n ≡ m
IsLifetime (some (str s)) n = int_of_text s ≡ some (false, n)
IsLifetime _ n = ⊥

lifetime_of-IsLifetime :
    (claim : Option Json) (n : ℕ) → IsLifetime claim n → lifetime_of (value_or null claim) ≡ n
unfolding lifetime_of
lifetime_of-IsLifetime none n h = sym h
lifetime_of-IsLifetime (some null) n h = sym h
lifetime_of-IsLifetime (some (num m)) n h = sym h
lifetime_of-IsLifetime (some (str s)) n h = rw (lifetime_of, h) refl
lifetime_of-IsLifetime (some _) n h = absurd h

-- The kept token is alive for one second at least, and else until 30 seconds before its lifetime is over.
abbrev pub in_time : ℕ → ℕ → ℕ → Bool
in_time issued lifetime now = ltb now (issued + 1) || ltb (now + 30) (issued + lifetime)

cached-store_token :
    (c d : M2mConfig) (token expires_in : Json) (w : TokenWorld) (u : ℕ)
    → cached d (record (store_token c token expires_in w) { mono = u }) ≡ (
        if same_key c d
        then (if in_time w.mono (lifetime_of expires_in) u then some token else none)
        else cached d (record w { mono = u }))
unfolding entry_of
cached-store_token c d token expires_in w u = ground arith

module _ (post : String → Dict String → TokenWorld → Option Answer × TokenWorld) where
  -- A service token that was kept, for a lifetime that the answer gives as a number or as a text
  -- that reads as one, or of 300 seconds where it gives none, is used again without a request until
  -- 30 seconds before that lifetime is over, and for one second at least; a new one is requested
  -- from then on.
  pub get_token-handle_payload :
      (c : M2mConfig) (fs : Fields) (w : TokenWorld) (token : Json) (lifetime u : ℕ)
      → is_usable c ≡ true
      → (handle_payload c (obj fs) w).0 ≡ ok (some token)
      → IsLifetime (field_of "expires_in" fs) lifetime
      → let v = record (handle_payload c (obj fs) w).1 { mono = u } in
        get_token post c false v
        ≡ (if in_time w.mono lifetime u then (ok (some token), v) else request_token post c v)
  unfolding get_token
  get_token-handle_payload c fs w token lifetime u usable h lasts =
      let (granted, kept) = handle_payload_lem c fs w token h in
      let expires_in = value_or null (field_of "expires_in" fs) in
      let seconds = lifetime_of-IsLifetime (field_of "expires_in" fs) lifetime lasts in
      rw kept
        (ground (arith, cached-store_token c c token expires_in w u, ==-self c.client_id, seconds))
