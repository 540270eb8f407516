-- ===== src/Audio/Router/Keys.antt =====
-- The keys of streams: what `extractTGID` reads back, and that no two streams share one.
use tr_engine.Common.{
  ℕ, ◌≡◌, ◌↔◌, refl, sym, ap, ◌∙◌, none, some, [], ◌∷◌, ◌++◌, Text, Lacks, cut-append, arith,
  nat_comparable, cut,
}
use mathlib.Core.Option.{some-injective}
use tr_engine.Common.Decimal.{
  decimal, number_from, number_from-decimal, AllDigits, decimal-AllDigits,
}
use tr_engine.Audio.Router.{stream_key, after_last_colon, number_or_zero, extract_tgid}

digits-Lacks : (t : Text) → AllDigits t → Lacks 58 t
digits-Lacks [] h = tt
digits-Lacks (c ∷ t) h = (ground (arith, h.0, h.1), digits-Lacks t h.2)

Lacks-after_last_colon : (t : Text) → Lacks 58 t → after_last_colon t ≡ none
unfolding after_last_colon
Lacks-after_last_colon [] h = refl
Lacks-after_last_colon (c ∷ t) h = rw (Lacks-after_last_colon t h.1) (ground (arith, h.0))

after_last_colon-append : (s t : Text) → Lacks 58 t → after_last_colon (s ++ 58 ∷ t) ≡ some t
unfolding after_last_colon
after_last_colon-append [] t h = rw (Lacks-after_last_colon t h) refl
after_last_colon-append (c ∷ s) t h = rw (after_last_colon-append s t h) refl

colon_free : (n : ℕ) → Lacks 58 (decimal n)
colon_free n = digits-Lacks (decimal n) (decimal-AllDigits n)

decimal-injective : (m n : ℕ) → decimal m ≡ decimal n → m ≡ n
decimal-injective m n e = sym (number_from-decimal m) ∙ ap (number_from 0) e ∙ number_from-decimal n

pub stream_key-injective :
    (system tgid system' tgid' : ℕ)
    → stream_key system tgid ≡ stream_key system' tgid'
    → (system ≡ system') × (tgid ≡ tgid')
unfolding stream_key
stream_key-injective system tgid system' tgid' e =
    let halves =
      sym (cut-append 58 (decimal system) (decimal tgid) (colon_free system))
      ∙ ap (cut 58) e
      ∙ cut-append 58 (decimal system') (decimal tgid') (colon_free system') in
    let p = some-injective _ _ halves in
    (
      decimal-injective system system' (ap (λ q. q.0) p),
      decimal-injective tgid tgid' (ap (λ q. q.1) p),
    )

-- `extractTGID` reads back the talkgroup of every key that the router builds, and two keys are equal
-- only if system and talkgroup are.
pub extract_tgid-stream_key :
    (system tgid : ℕ) (system' tgid' : ℕ)
    → (extract_tgid (stream_key system tgid) ≡ tgid)
      × ((stream_key system tgid ≡ stream_key system' tgid')
          ↔ ((system ≡ system') × (tgid ≡ tgid')))
unfolding extract_tgid stream_key
extract_tgid-stream_key system tgid system' tgid' = (
  ap number_or_zero (after_last_colon-append (decimal system) (decimal tgid) (colon_free tgid))
      ∙ number_from-decimal tgid,
  (stream_key-injective system tgid system' tgid', λ e. cc (e.0, e.1)),
)
