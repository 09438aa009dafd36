-- ===== src/Api/Recorder.antt =====
-- internal/api/idempotency.go: the recorder that stands between a handler and the client. What
-- net/http does with what it is passed is written out in `received`.
use Prim.Native.String.{◌++◌}
use mathlib.Core.Path.{subst}
use text.Mathlib.TextLemmas.{append_assoc, append-nil, nil-append}
use gripe.Common.{
  ℕ, String, ◌≡◌, refl, sym, ap, ◌∙◌, Bool, true, false, Bool-cases, inl, inr, arith, List, [], ◌∷◌,
  if◌then◌else◌,
}

-- What a handler does with its ResponseWriter, and what the recorder passes on.
pub data Write : Type 0 where
  header : ℕ → Write
  bytes : String → Write

-- `passed`: the calls of the ResponseWriter underneath, in their order.
pub record Recorder : Type 0 where
  pub status : ℕ
  pub wrote_header : Bool
  pub buf : String
  pub passed : List Write

-- http.StatusOK until something is written.
abbrev pub new_recorder : Recorder
new_recorder = record { status = 200; wrote_header = false; buf = ""; passed = [] }

-- The calls in their order, the last one at the end.
unfoldable pub snoc : List Write → Write → List Write
snoc [] x = x ∷ []
snoc (y ∷ ys) x = y ∷ snoc ys x

unfoldable pub write_header : ℕ → Recorder → Recorder
write_header code r =
    if r.wrote_header
    then r
    else (record r { status = code; wrote_header = true; passed = snoc r.passed (header code) })

unfoldable pub write : String → Recorder → Recorder
unfolding write_header
write b r =
    let r' = if r.wrote_header then r else write_header 200 r in
    record r' { buf = r'.buf ++ b; passed = snoc r'.passed (bytes b) }

-- A handler's writes, one after another.
unfoldable pub serve : List Write → Recorder → Recorder
unfolding write_header write
serve [] r = r
serve (header code ∷ ws) r = serve ws (write_header code r)
serve (bytes b ∷ ws) r = serve ws (write b r)

-- The body that a client gets.
unfoldable pub body_of : List Write → String
body_of [] = ""
body_of (header code ∷ ws) = body_of ws
body_of (bytes b ∷ ws) = b ++ body_of ws

abbrev pub OnlyBytes : List Write → Type 0
OnlyBytes [] = Unit
OnlyBytes (header code ∷ ws) = ⊥
OnlyBytes (bytes b ∷ ws) = OnlyBytes ws

-- One header before any bytes, of that status; nothing at all is 200 with an empty body.
abbrev pub IsResponse : ℕ → List Write → Type 0
IsResponse status [] = status ≡ 200
IsResponse status (header code ∷ ws) = (code ≡ status) × OnlyBytes ws
IsResponse status (bytes b ∷ ws) = ⊥

body_of-snoc : (ws : List Write) (b : String) → body_of (snoc ws (bytes b)) ≡ body_of ws ++ b
unfolding body_of snoc
body_of-snoc [] b = append-nil b ∙ sym (nil-append b)
body_of-snoc (header code ∷ ws) b = body_of-snoc ws b
body_of-snoc (bytes c ∷ ws) b =
    ap (λ s. c ++ s) (body_of-snoc ws b) ∙ sym (append_assoc c (body_of ws) b)

OnlyBytes-snoc : (ws : List Write) (b : String) → OnlyBytes ws → OnlyBytes (snoc ws (bytes b))
unfolding snoc
OnlyBytes-snoc [] b h = tt
OnlyBytes-snoc (header code ∷ ws) b h = absurd h
OnlyBytes-snoc (bytes c ∷ ws) b h = OnlyBytes-snoc ws b h

-- A recorder before the first write, and after it.
data IsFaithful : Recorder → Type 0 where
  silent : IsFaithful new_recorder
  spoken :
      (status : ℕ) (buf : String) (chunks : List Write)
      → OnlyBytes chunks
      → body_of chunks ≡ buf
      → IsFaithful (record {
        status = status;
        wrote_header = true;
        buf = buf;
        passed = header status ∷ chunks;
      })

write_header-IsFaithful :
    (code : ℕ) (r : Recorder) → IsFaithful r → IsFaithful (write_header code r)
unfolding write_header snoc body_of
write_header-IsFaithful code _ silent = spoken code "" [] tt refl
write_header-IsFaithful code _ (spoken status buf chunks only body) =
    spoken status buf chunks only body

write-IsFaithful : (b : String) (r : Recorder) → IsFaithful r → IsFaithful (write b r)
unfolding write snoc body_of
write-IsFaithful b _ silent =
    spoken 200 ("" ++ b) (bytes b ∷ []) tt (append-nil b ∙ sym (nil-append b))
write-IsFaithful b _ (spoken status buf chunks only body) =
    spoken status (buf ++ b) (snoc chunks (bytes b)) (OnlyBytes-snoc chunks b only)
      (body_of-snoc chunks b ∙ ap (λ s. s ++ b) body)

serve-IsFaithful : (ws : List Write) (r : Recorder) → IsFaithful r → IsFaithful (serve ws r)
unfolding serve
serve-IsFaithful [] r h = h
serve-IsFaithful (header code ∷ ws) r h =
    serve-IsFaithful ws (write_header code r) (write_header-IsFaithful code r h)
serve-IsFaithful (bytes b ∷ ws) r h = serve-IsFaithful ws (write b r) (write-IsFaithful b r h)

IsFaithful-IsResponse :
    (r : Recorder) → IsFaithful r → IsResponse r.status r.passed × (body_of r.passed ≡ r.buf)
unfolding body_of
IsFaithful-IsResponse _ silent = (refl, refl)
IsFaithful-IsResponse _ (spoken status buf chunks only body) = ((refl, only), body)

write_header-buf : (code : ℕ) (r : Recorder) → (write_header code r).buf ≡ r.buf
unfolding write_header
write_header-buf code r = ground arith

write-buf : (b : String) (r : Recorder) → (write b r).buf ≡ r.buf ++ b
unfolding write write_header
write-buf b r = elim (Bool-cases r.wrote_header) [ inl on ↦ rw on refl | inr off ↦ rw off refl ]

serve-buf : (ws : List Write) (r : Recorder) → (serve ws r).buf ≡ r.buf ++ body_of ws
unfolding serve body_of
serve-buf [] r = sym (append-nil r.buf)
serve-buf (header code ∷ ws) r =
    serve-buf ws (write_header code r) ∙ ap (λ s. s ++ body_of ws) (write_header-buf code r)
serve-buf (bytes b ∷ ws) r =
    serve-buf ws (write b r)
    ∙ (ap (λ s. s ++ body_of ws) (write-buf b r) ∙ append_assoc r.buf b (body_of ws))

-- Once a header is written, the status stays.
serve-status :
    (ws : List Write) (r : Recorder) → r.wrote_header ≡ true → (serve ws r).status ≡ r.status
unfolding serve write_header write
serve-status [] r on = refl
serve-status (header code ∷ ws) r on =
    rw on (serve-status ws (record r { wrote_header = true }) refl)
serve-status (bytes b ∷ ws) r on = rw on (
    serve-status ws
      (record r { wrote_header = true; buf = r.buf ++ b; passed = snoc r.passed (bytes b) }) refl)

-- The status of the first header, or 200 where bytes come first.
abbrev pub status_of : List Write → ℕ
status_of [] = 200
status_of (header code ∷ ws) = code
status_of (bytes b ∷ ws) = 200

serve-status_of : (ws : List Write) → (serve ws new_recorder).status ≡ status_of ws
unfolding serve write_header write
serve-status_of [] = refl
serve-status_of (header code ∷ ws) = serve-status ws (write_header code new_recorder) refl
serve-status_of (bytes b ∷ ws) = serve-status ws (write b new_recorder) refl

-- Whatever a handler writes, headers twice or none, the recorder passes on at most one header, before
-- any bytes, with the status of the handler's first header, or 200 where there is none before the first
-- bytes; and it holds that status, and the bytes that the handler wrote, which are those that it passed
-- on.
pub serve-IsResponse :
    (ws : List Write)
    → let r = serve ws new_recorder in
      IsResponse (status_of ws) r.passed
      × (r.status ≡ status_of ws)
      × (r.buf ≡ body_of ws)
      × (body_of r.passed ≡ r.buf)
serve-IsResponse ws =
    let r = serve ws new_recorder in
    let (response, body) = IsFaithful-IsResponse r (serve-IsFaithful ws new_recorder silent) in
    let status = serve-status_of ws in
    (
      subst (λ n. IsResponse n r.passed) status response,
      status,
      serve-buf ws new_recorder ∙ nil-append (body_of ws),
      body,
    )
