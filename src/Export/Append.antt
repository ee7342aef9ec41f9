-- ===== src/Export/Append.antt =====
-- core/export.c: what the calls of `append` leave in the buffer.
use libhwsense.Prelude.{
  ℕ, zero, suc, ◌+◌, ◌-◌, Bool-cases, subst, inl, inr, if◌then◌else◌, ltb, ltb→lt, ltb_false→le,
  ◌<◌, ◌≤◌, ◌≡◌, refl, sym, ap, ◌∙◌, Option, none, some, List, [], ◌∷◌, ◌++◌, length, length-append,
  take, drop, arith,
}
use mathlib.Core.List.{append-nil, append_assoc}
use libhwsense.Prelude.Int.{ℤ, pos, to_int}
use libhwsense.Text.{Bytes}
use libhwsense.Export.{Appender, put, put?, append, appends, accepts, export}
use libhwsense.Export.Buffer.{prefix, prefix-append, prefix_full, length-prefix, put-prefix}

abbrev pub concat : List Bytes → Bytes
concat [] = []
concat (text ∷ texts) = text ++ concat texts

pub concat-append : (xs ys : List Bytes) → concat (xs ++ ys) ≡ concat xs ++ concat ys
concat-append [] ys = refl
concat-append (x ∷ xs) ys =
    ap (λ s. x ++ s) (concat-append xs ys) ∙ sym (append_assoc x (concat xs) (concat ys))

-- the buffer behind a call, from the fields before it
abbrev buf_after : ℕ → ℕ → Bytes → Option Bytes → Option Bytes
buf_after needed size t buf =
    let remaining = if ltb needed size then size - needed else 0 in
    if ltb 0 remaining then put? needed remaining t buf else buf

with_room :
    (needed size : ℕ) (t : Bytes) (buf : Option Bytes)
    → needed < size
    → buf_after needed size t buf ≡ put? needed (suc (size - needed - 1)) t buf
with_room needed size t buf h = ground arith

without_room :
    (needed size : ℕ) (t : Bytes) (buf : Option Bytes)
    → size ≤ needed
    → buf_after needed size t buf ≡ buf
without_room needed size t buf h = ground arith

back_suc : (m n : ℕ) → m < n → suc (n - m - 1) ≡ n - m
back_suc m n h = omega arith

buf_after-prefix :
    (n : ℕ) (b done t : Bytes)
    → n ≤ length b
    → buf_after (length done) n t (some (prefix n done b)) ≡ some (prefix n (done ++ t) b)
unfolding put?
buf_after-prefix n b done t h =
    let d = length done in
    let p = prefix n done b in
    elim (Bool-cases (ltb d n)) [
      | inl e ↦
          with_room d n t (some p) (ltb→lt d n e)
          ∙ ap some (
              put-prefix d (n - d - 1) t p (omega (arith, ltb→lt d n e, length-prefix n done b))
              ∙ ap (λ k. take d p ++ prefix k t (drop d p)) (back_suc d n (ltb→lt d n e))
              ∙ prefix-append n done t b (ltb→lt d n e))
      | inr e ↦
          without_room d n t (some p) (ltb_false→le d n e)
          ∙ ap some (prefix_full n done t b (ltb_false→le d n e))
    ]

-- what a run of `append` has left behind a text, over the first contents of the buffer
After : ℕ → Bytes → Bytes → Appender → Type 0
After n b done a = (a.size ≡ n) × (a.needed ≡ length done) × (a.buf ≡ some (prefix n done b))

append-After :
    (n : ℕ) (b done t : Bytes) (a : Appender)
    → n ≤ length b
    → After n b done a
    → After n b (done ++ t) (append a t)
unfolding append After
append-After n b done t a h (es, en, eb) =
    (es, needed_next, rw (es, en, eb, buf_after-prefix n b done t h))
  where
    needed_next : a.needed + length t ≡ length (done ++ t)
    needed_next = omega (arith, en, length-append done t)

appends-After :
    (n : ℕ) (b done : Bytes) (texts : List Bytes) (a : Appender)
    → n ≤ length b
    → After n b done a
    → After n b (done ++ concat texts) (appends a texts)
unfolding appends
appends-After n b done [] a h k = subst (λ s. After n b s a) (sym (append-nil done)) k
appends-After n b done (t ∷ texts) a h k =
    subst (λ s. After n b s (appends (append a t) texts)) (append_assoc done t (concat texts))
      (appends-After n b (done ++ t) texts (append a t) h (append-After n b done t a h k))

-- The first write finds whatever the buffer held.
first_After :
    (n : ℕ) (b t : Bytes)
    → n ≤ length b
    → After n b t (append (record { buf = some b; size = n; needed = 0 }) t)
unfolding append After put? prefix
first_After zero b t h = (refl, omega arith, refl)
first_After (suc n) b t h = (
  refl,
  omega arith,
  with_room 0 (suc n) t (some b) (omega arith)
      ∙ ap some (
          ap (λ k. put 0 k t b) (back_suc 0 (suc n) (omega arith) ∙ sub_zero n)
          ∙ put-prefix 0 n t b (omega arith)),
)
  where
    sub_zero : (n : ℕ) → suc n - 0 ≡ suc n
    sub_zero n = omega arith

-- Many calls of `append` leave what one `vsnprintf` of the whole text leaves.
pub export-put :
    (n : ℕ) (b t : Bytes) (texts : List Bytes)
    → 0 < n
    → n ≤ length b
    → export (t ∷ texts) (some b) (pos n)
      ≡ (to_int (pos (length (concat (t ∷ texts)))), some (put 0 n (concat (t ∷ texts)) b))
unfolding export accepts appends After
export-put zero b t texts h k = absurd (omega arith)
export-put (suc n) b t texts h k =
    let (es, en, eb) = appends-After (suc n) b t texts _ k (first_After (suc n) b t k) in
    let eb' = eb ∙ ap some (sym (put-prefix 0 n (concat (t ∷ texts)) b (omega arith))) in
    λ i. (to_int (pos (en i)), eb' i)

measured :
    (texts : List Bytes) (a : Appender)
    → a.size ≡ 0
    → ((appends a texts).needed ≡ a.needed + length (concat texts))
      × ((appends a texts).buf ≡ a.buf)
unfolding appends append
measured [] a h = (omega arith, refl)
measured (t ∷ texts) a h =
    let (en, eb) = measured texts (append a t) h in
    (
      omega (arith, en, length-append t (concat texts)),
      eb ∙ without_room a.needed a.size t a.buf (omega arith),
    )

zero_add : (n : ℕ) → 0 + n ≡ n
zero_add n = omega arith

measured_from :
    (buf : Option Bytes) (texts : List Bytes)
    → let a = appends (record { buf = buf; size = 0; needed = 0 }) texts in
      ◌≡◌ {A = ℤ × Option Bytes}
        (to_int (pos a.needed), a.buf)
        (to_int (pos (length (concat texts))), buf)
measured_from buf texts =
    let (en, eb) = measured texts (record { buf = buf; size = 0; needed = 0 }) refl in
    let en' = en ∙ zero_add (length (concat texts)) in λ i. (to_int (pos (en' i)), eb i)

-- With no room nothing is written, and the pointer may be null.
pub export_measures :
    (buf : Option Bytes) (texts : List Bytes)
    → export texts buf (pos 0) ≡ (to_int (pos (length (concat texts))), buf)
unfolding export accepts
export_measures none texts = measured_from none texts
export_measures (some b) texts = measured_from (some b) texts

take_all : (t : Bytes) (n : ℕ) → length t ≤ n → take n t ≡ t
take_all [] zero h = refl
take_all [] (suc n) h = refl
take_all (c ∷ t) zero h = absurd (omega arith)
take_all (c ∷ t) (suc n) h = ap (λ s. c ∷ s) (take_all t n (omega arith))

-- The whole text reaches a buffer that has room for its terminator.
pub put_fits :
    (n : ℕ) (t b : Bytes) → length t < n → put 0 n t b ≡ t ++ (0 ∷ drop (suc (length t)) b)
unfolding put
put_fits n t b h =
    rw (take_all t (n - 1) (omega arith))
      (ap (λ k. t ++ (0 ∷ drop (suc k) b)) (zero_add (length t)))
