-- ===== src/SessionUrl/Build.antt =====
-- What the address is.
use printdrop.Prelude.{
  ℕ, ◌+◌, ◌≤◌, ◌<◌, ◌≡◌, sym, ap, ◌∙◌, Option, some, List, [], ◌∷◌, ◌++◌, length, length-append,
  length-take, take, drop, arith,
}
use printdrop.Bytes.{store}
use printdrop.Bytes.Store.{store-zero, store_next}
use printdrop.Bytes.Text.{strlen, strlen-le, text_of}
use printdrop.ReceiverSession.{ReceiverSession}
use printdrop.ReceiverSession.Lifecycle.{IsLive}
use printdrop.SessionUrl.{SessionUrlResult, put_url, build_url}

put_url-text :
    (prefix token out : List ℕ) (m n : ℕ)
    → m ≤ length prefix
    → n ≤ length token
    → m + n + 1 ≤ length out
    → put_url prefix m token n out
      ≡ ((take m prefix ++ take n token) ++ 0 ∷ []) ++ drop (m + n + 1) out
unfolding put_url
put_url-text prefix token out m n hm hn room =
    let lm : length (take m prefix) ≡ m = omega (arith, length-take m prefix) in
    let ln : length (take n token) ≡ n = omega (arith, length-take n token) in
    ap (λ b. store (m + n) (0 ∷ []) (store m (take n token) b))
      (store-zero (take m prefix) out (omega arith) ∙ ap (λ k. take m prefix ++ drop k out) lm)
    ∙ ap (store (m + n) (0 ∷ [])) (
        store_next (take m prefix) (take n token) out m (sym lm) (omega arith)
        ∙ ap (λ k. (take m prefix ++ take n token) ++ drop (m + k) out) ln)
    ∙ store_next (take m prefix ++ take n token) (0 ∷ []) out (m + n)
        (omega (arith, length-append (take m prefix) (take n token))) (omega arith)

build_url_facts :
    (s : ReceiverSession) (prefix out : List ℕ) (capacity : ℕ) (required : Option ℕ)
    → (build_url (some s) (some prefix) (some out) capacity required).0 ≡ SessionUrlResult.ok
    → IsLive s.state
      × (strlen s.token ≡ 32)
      × (0 < strlen prefix)
      × (strlen prefix + strlen s.token + 1 ≤ capacity)
      × ((build_url (some s) (some prefix) (some out) capacity required).1
          ≡ some (put_url prefix (strlen prefix) s.token (strlen s.token) out))
unfolding build_url
build_url_facts s prefix out capacity required e = ground (arith, e)

-- Where building an address succeeds, in a buffer at least as long as the capacity that it is told,
-- the session is waiting or transferring, its token is 32 characters long, the prefix is not empty,
-- and the buffer holds the prefix, then the token, then a NUL, with the rest as it was.
pub build_url_ok :
    (s : ReceiverSession) (prefix out : List ℕ) (capacity : ℕ) (required : Option ℕ)
    → capacity ≤ length out
    → (build_url (some s) (some prefix) (some out) capacity required).0 ≡ SessionUrlResult.ok
    → IsLive s.state
      × (strlen s.token ≡ 32)
      × (0 < strlen prefix)
      × ((build_url (some s) (some prefix) (some out) capacity required).1
          ≡ some (((text_of prefix ++ text_of s.token) ++ 0 ∷ []) ++ drop (strlen prefix + 33) out))
build_url_ok s prefix out capacity required room e =
    let (live, len, nonempty, fits, written) = build_url_facts s prefix out capacity required e in
    (
      live,
      len,
      nonempty,
      written
          ∙ ap some (
              put_url-text prefix s.token out (strlen prefix) (strlen s.token) (strlen-le prefix)
                (strlen-le s.token) (omega arith)
              ∙ ap (λ k. ((text_of prefix ++ text_of s.token) ++ 0 ∷ []) ++ drop k out)
                  {x = strlen prefix + strlen s.token + 1} {y = strlen prefix + 33} (omega arith)),
    )
