-- ===== src/Controller/Receiving/Answered.antt =====
-- No call is lost: each one is pending until its channel has its response and is closed.
use totem.Base.{
  ℕ, ◌≡◌, ◌≢◌, ◌∙◌, ◌<◌, ◌+◌, refl, true, false, some, List, [], ◌∷◌, ◌++◌, Bool-cases, ◌⊎◌, inl,
  inr, nat_eq, arith, ◌==◌, ==_iff, get_elem?, set, length, length-append, length-set,
  get_elem?-set_self, get_elem?-set_ne, get_elem?-concat_lt, get_elem?-lt,
}
use totem.Base.Table.{load, delete, store, load-store, load-delete, beq_ne}
use totem.Controller.{Chan, new_chan, uint64_mod}
use totem.Controller.Receiving.Channels.{take-closed, pushed}
use totem.Controller.Receiving.Invariant.{tag_of}
use totem.Controller.Receiving.Moves.{News, Calls, Move, idle, issued, streamed, answered, taken}

abbrev pub Closed : List Chan → ℕ → Type 0
Closed channels a = (ch : Chan) × (get_elem? channels a ≡ some ch) × (ch.closed ≡ true)

abbrev pub Owned : Calls → Type 0
Owned s = (t a : ℕ) → load t s.1 ≡ some a → t ≡ tag_of a

abbrev pub IsKept : Calls → ℕ → Type 0
IsKept s a = (load (a + 1) s.1 ≡ some a) ⊎ Closed s.0 a

pub Closed-concat :
    (channels : List Chan) (a : ℕ) → Closed channels a → Closed (channels ++ new_chan ∷ []) a
Closed-concat channels a (ch, here, closed) =
    (ch, get_elem?-concat_lt channels a new_chan (get_elem?-lt channels a ch here) ∙ here, closed)

-- A closed channel stays closed when a channel is replaced by one that is closed if it was.
pub Closed-set :
    (channels : List Chan) (a b : ℕ) (ch out : Chan)
    → get_elem? channels a ≡ some ch
    → (ch.closed ≡ true → out.closed ≡ true)
    → Closed channels b
    → Closed (set channels a out) b
Closed-set channels a b ch out here keeps (x, there, closed) = elim (Bool-cases (a == b)) [
  | inl e ↦
      let p : a ≡ b = ground arith in
      let same : x ≡ ch = cc in
      rw (← p) (
        out,
        get_elem?-set_self channels a out (get_elem?-lt channels a ch here),
        keeps (rw (← same) closed),
      )
  | inr e ↦ (x, get_elem?-set_ne channels a b out (ground arith) ∙ there, closed)
]

module _ (s : Calls) (own : Owned s) where
  issued-IsKept :
      (a : ℕ)
      → length s.0 + 1 < uint64_mod
      → (a < length s.0 → IsKept s a)
      → a < length s.0 + 1
      → IsKept (s.0 ++ new_chan ∷ [], store (tag_of (length s.0)) (length s.0) s.1) a
  issued-IsKept a fits old lt = elim (Bool-cases (tag_of (length s.0) == a + 1)) [
    | inl new ↦ inl (
        let e : length s.0 ≡ a = omega (arith, (==_iff (tag_of (length s.0)) (a + 1)).0 new) in
        rw (load-store (tag_of (length s.0)) (a + 1) (length s.0) s.1, new, e))
    | inr other ↦
        let ne : a ≢ length s.0 =
          λ e. cc (other, (==_iff (tag_of (length s.0)) (a + 1)).1 (omega arith)) in
        elim (old (omega arith)) [
          | inl there ↦
              inl (rw (load-store (tag_of (length s.0)) (a + 1) (length s.0) s.1, other) there)
          | inr closed ↦ inr (Closed-concat s.0 a closed)
        ]
  ]

  answered-IsKept :
      (a tag b : ℕ) (ch out : Chan)
      → b < length s.0
      → length s.0 < uint64_mod
      → load tag s.1 ≡ some a
      → get_elem? s.0 a ≡ some ch
      → out.closed ≡ true
      → IsKept s b
      → IsKept (set s.0 a out, delete tag s.1) b
  answered-IsKept a tag b ch out lt fits there here closed k = elim (Bool-cases (a == b)) [
    | inl e ↦
        let p : a ≡ b = ground arith in
        inr (rw (← p) (out, get_elem?-set_self s.0 a out (get_elem?-lt s.0 a ch here), closed))
    | inr e ↦ elim k [
      | inl pending ↦
          let ne : tag ≢ b + 1 = λ p.
            cc (e, (==_iff a b).1 (omega (arith, own tag a there, get_elem?-lt s.0 a ch here))) in
          inl (rw (load-delete tag (b + 1) s.1, beq_ne tag (b + 1) ne) pending)
      | inr x ↦ inr (Closed-set s.0 a b ch out here (λ _. closed) x)
    ]
  ]

  replaced-IsKept :
      (a b : ℕ) (ch out : Chan)
      → get_elem? s.0 a ≡ some ch
      → (ch.closed ≡ true → out.closed ≡ true)
      → IsKept s b
      → IsKept (set s.0 a out, s.1) b
  replaced-IsKept a b ch out here keeps (inl pending) = inl pending
  replaced-IsKept a b ch out here keeps (inr x) = inr (Closed-set s.0 a b ch out here keeps x)

-- Unless the counter wraps, every call is pending or has a closed channel.
pub record Kept (s : Calls) : Type 0 where
  pub kept : length s.0 < uint64_mod → (a : ℕ) → a < length s.0 → IsKept s a

pub Move-Kept : {said : News} {s t : Calls} → Move said s t → Owned s → Kept s → Kept t
Move-Kept (idle n e) own k = rw e k
Move-Kept {s = s} (issued n e) own k = rw e (record {
  kept = λ fits a lt.
      issued-IsKept s own a (omega (arith, length-append s.0 (new_chan ∷ [])))
        (λ old. k.kept (omega (arith, length-append s.0 (new_chan ∷ []))) a old)
        (omega (arith, length-append s.0 (new_chan ∷ [])));
})
Move-Kept {s = s} (streamed a m ch n there here unclosed e) own k = rw e (record {
  kept = λ fits b lt.
      replaced-IsKept s own a b ch _ here (λ closed. cc)
        (k.kept (omega (arith, length-set s.0 a (pushed false m ch))) b
          (omega (arith, length-set s.0 a (pushed false m ch))));
})
Move-Kept {s = s} (answered a m ch n there here unclosed e) own k = rw e (record {
  kept = λ fits b lt.
      answered-IsKept s own a m.tag b ch _ (omega (arith, length-set s.0 a (pushed true m ch)))
        (omega (arith, length-set s.0 a (pushed true m ch))) there here refl
        (k.kept (omega (arith, length-set s.0 a (pushed true m ch))) b
          (omega (arith, length-set s.0 a (pushed true m ch))));
})
Move-Kept {s = s} (taken a ch out n here t e) own k = rw e (record {
  kept = λ fits b lt.
      replaced-IsKept s own a b ch out here (λ closed. take-closed ch out t ∙ closed)
        (k.kept (omega (arith, length-set s.0 a out)) b (omega (arith, length-set s.0 a out)));
})
