-- ===== src/CustomHandler/Validated.antt =====
-- What POST /validate answers.
use go_backend_examples.Common.{
  subst, ◌∙◌, ap, sym, arith, none, some, ℕ, ◌≡◌, refl, ◌≤◌, ◌⊎◌, inl, inr, Bool, true, ◌||◌, ◌&&◌,
  ◌==◌, leb, Bool-cases, String, Option, List, [], ◌∷◌, ◌++◌, Bytes, codes, All, length,
}
use go_backend_examples.Regex.{Item, Pattern, in_ranges, fits, Matches, ends, next}
use go_backend_examples.CustomHandler.{
  email_regex, Sent, sent_json_type, sent_header, sent_body, Payload, payload_error, message_errors,
  World, write_string, write_json, make_http_handler, validate, json_validate_post_request,
}

abbrev pub is_lower : ℕ → Bool
is_lower c = leb b'a' c && leb c b'z'

abbrev pub is_alphanumeric : ℕ → Bool
is_alphanumeric c = is_lower c || leb b'0' c && leb c b'9'

-- The classes [a-z0-9._%+\-] and [a-z0-9.\-].
abbrev pub is_local : ℕ → Bool
is_local c = is_alphanumeric c || c == b'.' || c == b'_' || c == b'%' || c == b'+' || c == b'-'

abbrev pub is_domain : ℕ → Bool
is_domain c = is_alphanumeric c || c == b'.' || c == b'-'

-- The language of the pattern ^[a-z0-9._%+\-]+@[a-z0-9.\-]+\.[a-z]{2,4}$.
pub record IsEmail (s : Bytes) : Type 0 where
  pub local : Bytes
  pub domain : Bytes
  pub top : Bytes
  pub parts : s ≡ local ++ (b'@' ∷ (domain ++ (b'.' ∷ top)))
  pub local_chars : All (λ c. is_local c ≡ true) local
  pub domain_chars : All (λ c. is_domain c ≡ true) domain
  pub top_chars : All (λ c. is_lower c ≡ true) top
  pub some_local : 1 ≤ length local
  pub some_domain : 1 ≤ length domain
  pub top_length : (2 ≤ length top) × (length top ≤ 4)

-- That MatchString decides what a pattern matches.
abbrev pub IsMatcher : (Pattern → Bytes → Bool) → Type 0
IsMatcher match_string =
    (ps : Pattern) (s : Bytes)
    → (match_string ps s ≡ true → Matches ps s) × (Matches ps s → match_string ps s ≡ true)

All-map : (P Q : ℕ → Type 0) (s : Bytes) → ((c : ℕ) → P c → Q c) → All P s → All Q s
All-map P Q [] f h = tt
All-map P Q (c ∷ s) f (p, h) = (f c p, All-map P Q s f h)

abbrev OfClass : Item → ℕ → Type 0
OfClass p c = in_ranges p.ranges c ≡ true

abbrev local_item : Item
local_item = record {
  ranges =
      (b'a', b'z')
      ∷ (b'0', b'9')
      ∷ (b'.', b'.')
      ∷ (b'_', b'_')
      ∷ (b'%', b'%')
      ∷ (b'+', b'+')
      ∷ (b'-', b'-')
      ∷ [];
  least = 1;
  most = none;
}

abbrev domain_item : Item
domain_item = record {
  ranges = (b'a', b'z') ∷ (b'0', b'9') ∷ (b'.', b'.') ∷ (b'-', b'-') ∷ [];
  least = 1;
  most = none;
}

abbrev letter_item : Item
letter_item = record { ranges = (b'a', b'z') ∷ []; least = 2; most = some 4 }

abbrev char_item : ℕ → Item
char_item c = record { ranges = (c, c) ∷ []; least = 1; most = some 1 }

local_to : (c : ℕ) → OfClass local_item c → is_local c ≡ true
local_to c h = ground arith

local_from : (c : ℕ) → is_local c ≡ true → OfClass local_item c
local_from c h = ground arith

domain_to : (c : ℕ) → OfClass domain_item c → is_domain c ≡ true
domain_to c h = ground arith

domain_from : (c : ℕ) → is_domain c ≡ true → OfClass domain_item c
domain_from c h = ground arith

lower_to : (c : ℕ) → OfClass letter_item c → is_lower c ≡ true
lower_to c h = ground arith

lower_from : (c : ℕ) → is_lower c ≡ true → OfClass letter_item c
lower_from c h = ground arith

one_char : (c a : ℕ) → OfClass (char_item c) a → a ≡ c
one_char c a h = ground arith

one_item :
    (c : ℕ) (s : Bytes)
    → All (OfClass (char_item c)) s
    → fits (char_item c) (length s) ≡ true
    → s ≡ c ∷ []
one_item c [] all f = cc f
one_item c (a ∷ []) (h, all) f = ap (λ b. b ∷ []) (one_char c a h)
one_item c (a ∷ b ∷ s) all f = absurd (ground arith)

some_chars : (n : ℕ) → leb 1 n && true ≡ true → 1 ≤ n
some_chars n h = ground arith

some_fit : (n : ℕ) → 1 ≤ n → leb 1 n && true ≡ true
some_fit n h = ground arith

letters : (n : ℕ) → fits letter_item n ≡ true → (2 ≤ n) × (n ≤ 4)
letters n h = ground arith

letters_fit : (n : ℕ) → 2 ≤ n → n ≤ 4 → fits letter_item n ≡ true
letters_fit n h k = ground arith

append_nil : (s : Bytes) → s ++ [] ≡ s
append_nil [] = refl
append_nil (c ∷ s) = ap (λ t. c ∷ t) (append_nil s)

-- The regular expression matches the texts of its language.
Matches-IsEmail : (s : Bytes) → Matches email_regex s → IsEmail s
Matches-IsEmail _
      (next l all_l fit_l
        (next a all_a fit_a (next d all_d fit_d (next b all_b fit_b (next t all_t fit_t ends))))) =
    record {
      local = l;
      domain = d;
      top = t;
      parts = rw (one_item b'@' a all_a fit_a, one_item b'.' b all_b fit_b, append_nil t);
      local_chars = All-map (OfClass local_item) (λ c. is_local c ≡ true) l local_to all_l;
      domain_chars = All-map (OfClass domain_item) (λ c. is_domain c ≡ true) d domain_to all_d;
      top_chars = All-map (OfClass letter_item) (λ c. is_lower c ≡ true) t lower_to all_t;
      some_local = some_chars (length l) fit_l;
      some_domain = some_chars (length d) fit_d;
      top_length = letters (length t) fit_t;
    }

IsEmail-Matches : (s : Bytes) → IsEmail s → Matches email_regex s
IsEmail-Matches s e =
    subst (Matches email_regex)
      (sym
        (e.parts ∙ ap (λ t. e.local ++ (b'@' ∷ (e.domain ++ (b'.' ∷ t)))) (sym (append_nil e.top))))
      (next e.local
        (All-map (λ c. is_local c ≡ true) (OfClass local_item) e.local local_from e.local_chars)
        (some_fit (length e.local) e.some_local)
        (next (b'@' ∷ []) (refl, tt) refl
          (next e.domain
            (All-map (λ c. is_domain c ≡ true) (OfClass domain_item) e.domain domain_from
              e.domain_chars)
            (some_fit (length e.domain) e.some_domain)
            (next (b'.' ∷ []) (refl, tt) refl
              (next e.top
                (All-map (λ c. is_lower c ≡ true) (OfClass letter_item) e.top lower_from
                  e.top_chars)
                (letters_fit (length e.top) e.top_length.0 e.top_length.1) ends)))))

abbrev pub untouched : World
untouched = record { sent = []; logged = [] }

-- The answer to an email that is not accepted, with the reason.
abbrev pub Refused : (Payload → Bytes) → Bytes → World → Type 0
Refused encode reason v = v ≡ record {
  sent =
      sent_json_type
      ∷ sent_header 400
      ∷ sent_body (encode (payload_error (message_errors ((codes "email", reason) ∷ []))))
      ∷ [];
  logged = [];
}

module _ (accept : Bytes → List Sent → Option String) (encode : Payload → Bytes)
    (match_string : Pattern → Bytes → Bool) where
  -- POST /validate answers an email once: by 200 and "validation successful", and then it is an email
  -- of the pattern; or by 400 and the reason, which is "this field is required" for no email and
  -- "invalid email" for one that is not of the pattern. This holds whatever the connection does, if
  -- MatchString decides what a regular expression matches.
  pub validated-IsEmail :
      (email : Bytes)
      → IsMatcher match_string
      → let v =
          make_http_handler accept encode match_string
            (json_validate_post_request accept encode match_string email)
            untouched in
        (IsEmail email
          × (v ≡ record {
            sent = sent_header 200 ∷ sent_body (codes "validation successful") ∷ [];
            logged = [];
          }))
        ⊎ ((email ≡ []) × Refused encode (codes "this field is required") v)
        ⊎ (¬ IsEmail email × Refused encode (codes "invalid email") v)
  unfolding make_http_handler json_validate_post_request validate write_json write_string
  validated-IsEmail [] law = inr (inl (refl, refl))
  validated-IsEmail (c ∷ s) law = elim (Bool-cases (match_string email_regex (c ∷ s))) [
    | inl e ↦ inl (Matches-IsEmail (c ∷ s) ((law email_regex (c ∷ s)).0 e), rw e)
    | inr e ↦ inr (
        inr (
          (λ m.
              let taken = (law email_regex (c ∷ s)).1 (IsEmail-Matches (c ∷ s) m) in cc (e, taken)),
          rw e,
        ))
  ]
