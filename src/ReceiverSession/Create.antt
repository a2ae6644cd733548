-- ===== src/ReceiverSession/Create.antt =====
-- `pd_receiver_session_create`: what a new session holds, and what a failure leaves.
use printdrop.Prelude.{
  ℕ, ◌+◌, ◌*◌, ◌/◌, ◌%◌, ◌^◌, ◌≤◌, ◌<◌, ◌≡◌, ◌≢◌, ◌↔◌, refl, sym, ap, ◌∙◌, Bool, true, Option, some,
  List, [], ◌∷◌, ◌++◌, length, length-take, length-drop, drop-all, take, drop, replicate, All,
  All-take, All-drop, arith,
}
use printdrop.Bytes.{IsByte, store}
use printdrop.Hex.{hex_digit, put_hex}
use printdrop.Hex.Digits.{hex_text, put_hex_nul, hex_digit_high, hex_digit_low}
use printdrop.SecureZero.{zero_bytes_whole}
use printdrop.ReceiverSession.{
  ReceiverSession, SessionState, SessionResult, encode_hex, session_reset, activate, after_entropy,
  session_create,
}

-- The two buffers have their declared sizes.
pub record IsSized (s : ReceiverSession) : Type 0 where
  pub token_size : length s.token ≡ 33
  pub secret_size : length s.receiver_secret ≡ 65

-- Both credentials are wiped.
pub record IsWiped (s : ReceiverSession) : Type 0 where
  pub token : s.token ≡ replicate 33 0
  pub secret : s.receiver_secret ≡ replicate 65 0

-- A usable session: the digits of 16 and of 32 random bytes, and an expiry after its creation.
pub record IsArmed (s : ReceiverSession) : Type 0 where
  pub token_bytes : List ℕ
  pub secret_bytes : List ℕ
  pub token_length : length token_bytes ≡ 16
  pub secret_length : length secret_bytes ≡ 32
  pub token : s.token ≡ hex_text token_bytes ++ 0 ∷ []
  pub secret : s.receiver_secret ≡ hex_text secret_bytes ++ 0 ∷ []
  pub lasts : s.created_at_ms < s.expires_at_ms
  pub in_range : s.expires_at_ms < 2 ^ 64

-- `pd_encode_hex` into a buffer of exactly the size.
encode_hex-hex_text :
    (input out : List ℕ) (n : ℕ)
    → All IsByte input
    → n ≤ length input
    → length out ≡ n * 2 + 1
    → encode_hex input n out ≡ hex_text (take n input) ++ 0 ∷ []
unfolding encode_hex
encode_hex-hex_text input out n h long size =
    let t = take n input in
    let len : length t ≡ n = omega (arith, length-take n input) in
    ap (λ k. store (k * 2) (0 ∷ []) (put_hex (λ b. hex_digit (b / 16 % 256)) hex_digit t 0 out))
      (sym len)
    ∙ put_hex_nul (λ b. hex_digit (b / 16 % 256)) hex_digit hex_digit_high hex_digit_low t out
        (All-take IsByte n input h) (omega arith)
    ∙ ap (λ r. hex_text t ++ 0 ∷ r) (drop-all (length t * 2 + 1) out (omega arith))

-- The documented behaviour of a random source: a request that succeeds gives as many bytes as asked.
module _ {R : Type 0} where
  abbrev pub FillsBuffers : (R → ℕ → Bool × List ℕ × R) → Type 0
  FillsBuffers fill =
      (r : R) (n : ℕ) → (fill r n).0 ≡ true → All IsByte (fill r n).1 × (length (fill r n).1 ≡ n)

reset_IsSized :
    (s : ReceiverSession) → IsSized s → IsSized (session_reset s) × IsWiped (session_reset s)
unfolding session_reset
reset_IsSized s z =
    let t = zero_bytes_whole s.token 33 z.token_size in
    let u = zero_bytes_whole s.receiver_secret 65 z.secret_size in
    (
      record { token_size = ap length t; secret_size = ap length u },
      record { token = t; secret = u },
    )

-- A session made of the given random bytes, at a time and for a lifetime.
pub record IsCreated (s : ReceiverSession) (entropy : List ℕ) (now ttl : ℕ) : Type 0 where
  pub token : s.token ≡ hex_text (take 16 entropy) ++ 0 ∷ []
  pub secret : s.receiver_secret ≡ hex_text (take 32 (drop 16 entropy)) ++ 0 ∷ []
  pub created : s.created_at_ms ≡ now
  pub expires : s.expires_at_ms ≡ now + ttl
  pub waits : s.state ≡ SessionState.waiting

activate-IsCreated :
    (s : ReceiverSession) (entropy : List ℕ) (now ttl : ℕ)
    → IsSized s
    → All IsByte entropy
    → length entropy ≡ 48
    → now + ttl < 2 ^ 64
    → IsCreated (activate s entropy now ttl) entropy now ttl
unfolding activate
activate-IsCreated s entropy now ttl z bytes long fits = record {
  token = encode_hex-hex_text entropy s.token 16 bytes (omega arith) z.token_size;
  secret =
      encode_hex-hex_text (drop 16 entropy) s.receiver_secret 32 (All-drop IsByte 16 entropy bytes)
        (omega (arith, length-drop 16 entropy)) z.secret_size;
  created = refl;
  expires = omega arith;
  waits = refl;
}

IsCreated-IsArmed :
    (s : ReceiverSession) (entropy : List ℕ) (now ttl : ℕ)
    → length entropy ≡ 48
    → 1 ≤ ttl
    → now + ttl < 2 ^ 64
    → IsCreated s entropy now ttl
    → IsArmed s
IsCreated-IsArmed s entropy now ttl long some_ttl fits c = record {
  token_bytes = take 16 entropy;
  secret_bytes = take 32 (drop 16 entropy);
  token_length = omega (arith, length-take 16 entropy);
  secret_length = omega (arith, length-take 32 (drop 16 entropy), length-drop 16 entropy);
  token = c.token;
  secret = c.secret;
  lasts = omega (arith, c.created, c.expires);
  in_range = omega (arith, c.expires);
}

module _ {R : Type 0} (fill : R → ℕ → Bool × List ℕ × R) (s : ReceiverSession) (now ttl : ℕ)
    (r : R) where
  abbrev creation : SessionResult × Option ReceiverSession × R
  creation = session_create (some s) now ttl (some fill) r

  -- Creation succeeds exactly for a positive lifetime that ends within 64 bits, if the random source
  -- answers.
  pub session_create_ok :
      now < 2 ^ 64
      → (creation.0 ≡ SessionResult.ok)
        ↔ ((1 ≤ ttl) × (now + ttl < 2 ^ 64) × ((fill r 48).0 ≡ true))
  unfolding session_create after_entropy
  session_create_ok n = (λ e. ground arith, λ c. ground arith)

  created_value :
      creation.0 ≡ SessionResult.ok
      → creation.1 ≡ some (activate (session_reset s) (fill r 48).1 now ttl)
  unfolding session_create after_entropy
  created_value e = ground arith

  -- Where the random source fills its buffers, the session's two buffers have their sizes and the
  -- clock has 64 bits: a session that was created waits, with credentials that are the digits of
  -- the 48 random bytes, from now on for exactly its lifetime.
  pub session_create-IsArmed :
      FillsBuffers fill
      → IsSized s
      → now < 2 ^ 64
      → creation.0 ≡ SessionResult.ok
      → (s' : ReceiverSession) × (creation.1 ≡ some s')
        × IsCreated s' (fill r 48).1 now ttl
        × IsArmed s'
  session_create-IsArmed fills z n e =
      let (some_ttl, fits, filled) = (session_create_ok n).0 e in
      let entropy = (fill r 48).1 in
      let s' = activate (session_reset s) entropy now ttl in
      let (bytes, long) = fills r 48 filled in
      let c =
        activate-IsCreated (session_reset s) entropy now ttl (reset_IsSized s z).0 bytes long
          fits in
      (s', created_value e, c, IsCreated-IsArmed s' entropy now ttl long some_ttl fits c)

  -- Where the session's two buffers have their sizes and the lifetime is positive, a creation that
  -- fails, for want of entropy or of clock range, leaves the session inactive and its credentials
  -- wiped.
  pub session_create_failed :
      IsSized s
      → 1 ≤ ttl
      → creation.0 ≢ SessionResult.ok
      → (s' : ReceiverSession) × (creation.1 ≡ some s')
        × IsWiped s'
        × (s'.state ≡ SessionState.inactive)
  unfolding session_create after_entropy
  session_create_failed z some_ttl e =
      (session_reset s, ground arith, (reset_IsSized s z).1, unfold session_reset in refl)
