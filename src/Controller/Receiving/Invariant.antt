-- ===== src/Controller/Receiving/Invariant.antt =====
-- What every interleaving of the goroutines keeps true of the calls of a controller.
use totem.Base.{
  ℕ, suc, ◌<◌, ◌≡◌, ◌∙◌, refl, sym, ap, Bool, true, false, some, List, [], ◌∷◌, ◌++◌, ◌+◌, ◌%◌,
  length, length-append, length-set, get_elem?-set_self, get_elem?-set_ne, get_elem?-concat_lt,
  get_elem?-concat_last, get_elem?-lt, Bool-cases, ◌⊎◌, inl, inr, get_elem?, set, nat_eq, ◌==◌,
  arith,
}
use totem.Base.Table.{Table, load, store, delete, load-store, load-delete}
use totem.Wire.{Rpc}
use totem.Controller.{Chan, new_chan, Controller, next, blocks, uint64_mod, chan_capacity}
use totem.Controller.Receiving.{push, store_chan}
use totem.Controller.Receiving.Channels.{
  IsChan, new_chan-IsChan, pushed, pushed-IsChan, push_cases, Fits,
}

-- The call whose channel is at the place `a` has this tag: each call takes the next number.
abbrev pub tag_of : ℕ → ℕ
tag_of a = (a + 1) % uint64_mod

abbrev Open : List Chan → ℕ → Type 0
Open channels a = (ch : Chan) × (get_elem? channels a ≡ some ch) × (ch.closed ≡ false)

-- The counter has counted the calls; a pending call has its own tag and an open channel; and every
-- channel holds a conversation of its call.
pub record Sound (count : ℕ) (channels : List Chan) (pending : Table ℕ ℕ) : Type 0 where
  pub counted : count ≡ length channels % uint64_mod
  pub owned : (t a : ℕ) → load t pending ≡ some a → (t ≡ tag_of a) × Open channels a
  pub shaped : (a : ℕ) (ch : Chan) → get_elem? channels a ≡ some ch → IsChan (tag_of a) ch

abbrev pub IsSound : Controller → Type 0
IsSound c = Sound c.count c.channels c.pending

pub empty-Sound : Sound 0 [] []
empty-Sound = record { counted = omega arith; owned = λ t a h. cc; shaped = λ a ch h. cc }

-- a place is the new one or an old one
pub concat_cases :
    {A : Type 0} (xs : List A) (x y : A) (a : ℕ)
    → get_elem? (xs ++ x ∷ []) a ≡ some y
    → ((a ≡ length xs) × (y ≡ x)) ⊎ (get_elem? xs a ≡ some y)
concat_cases [] x y ℕ.zero h = inl (refl, ground arith)
concat_cases [] x y (suc a) h = cc
concat_cases (z ∷ xs) x y ℕ.zero h = inr h
concat_cases (z ∷ xs) x y (suc a) h = elim (concat_cases xs x y a h) [
  | inl (e, p) ↦ inl (ap suc e, p)
  | inr p ↦ inr p
]

module _ {count : ℕ} {channels : List Chan} {pending : Table ℕ ℕ}
    (s : Sound count channels pending) where
  Open-concat : (a : ℕ) → Open channels a → Open (channels ++ new_chan ∷ []) a
  Open-concat a (ch, here, unclosed) = (
    ch,
    get_elem?-concat_lt channels a new_chan (get_elem?-lt channels a ch here) ∙ here,
    unclosed,
  )

  pub issue-tag : (count + 1) % uint64_mod ≡ tag_of (length channels)
  issue-tag = omega (arith, s.counted)

  issue-owned :
      (t a : ℕ)
      → load t (store ((count + 1) % uint64_mod) (length channels) pending) ≡ some a
      → (t ≡ tag_of a) × Open (channels ++ new_chan ∷ []) a
  issue-owned t a h = elim (Bool-cases ((count + 1) % uint64_mod == t)) [
    | inl new ↦
        let e : length channels ≡ a =
          ground (arith, load-store ((count + 1) % uint64_mod) t (length channels) pending) in
        rw (← e)
          (ground (arith, issue-tag), (new_chan, get_elem?-concat_last channels new_chan, refl))
    | inr old ↦
        let (tag, o) =
          s.owned t a
            (ground (arith, load-store ((count + 1) % uint64_mod) t (length channels) pending)) in
        (tag, Open-concat a o)
  ]

  issue-shaped :
      (a : ℕ) (ch : Chan) → get_elem? (channels ++ new_chan ∷ []) a ≡ some ch → IsChan (tag_of a) ch
  issue-shaped a ch h = elim (concat_cases channels new_chan ch a h) [
    | inl (_, e) ↦ rw e (new_chan-IsChan (tag_of a))
    | inr old ↦ s.shaped a ch old
  ]

  pub issue-Sound :
      Sound
        ((count + 1) % uint64_mod)
        (channels ++ new_chan ∷ [])
        (store ((count + 1) % uint64_mod) (length channels) pending)
  issue-Sound = record {
    counted = omega (arith, issue-tag, length-append channels (new_chan ∷ []));
    owned = issue-owned;
    shaped = issue-shaped;
  }

  pub delete-Sound : (t : ℕ) → Sound count channels (delete t pending)
  delete-Sound t = record {
    counted = s.counted;
    owned = λ j a h. s.owned j a (ground (arith, load-delete t j pending));
    shaped = s.shaped;
  }

  -- A channel may be replaced by one that is still a channel of its call, and that is open still if
  -- the call is pending.
  pub set-Sound :
      (a : ℕ) (ch out : Chan)
      → get_elem? channels a ≡ some ch
      → IsChan (tag_of a) out
      → ((t : ℕ) → load t pending ≡ some a → out.closed ≡ false)
      → Sound count (set channels a out) pending
  set-Sound a ch out here good keeps = record {
    counted = rw (length-set channels a out) s.counted;
    owned = λ t b h. elim (Bool-cases (a == b)) [
      | inl e ↦
          let p : a ≡ b = ground arith in
          rw (← p) (
            (s.owned t a (rw p h)).0,
            (
              out,
              get_elem?-set_self channels a out (get_elem?-lt channels a ch here),
              keeps t (rw p h),
            ),
          )
      | inr e ↦
          let (tag, (old, there, unclosed)) = s.owned t b h in
          (tag, (old, get_elem?-set_ne channels a b out (ground arith) ∙ there, unclosed))
    ];
    shaped = λ b x h. elim (Bool-cases (a == b)) [
      | inl e ↦
          let p : a ≡ b = ground arith in
          let q : out ≡ x =
            cc (get_elem?-set_self channels a out (get_elem?-lt channels a ch here), h, p) in
          rw (← p, ← q) good
      | inr e ↦ s.shaped b x (sym (get_elem?-set_ne channels a b out (ground arith)) ∙ h)
    ];
  }

-- A push on the open channel of a call, of a message that fits; if it closes the channel, the call
-- is not pending any more.
module _ (last : Bool) (a : ℕ) (m : Rpc) (c : Controller) (s : IsSound c) (o : Open c.channels a)
    (fits : Fits last (tag_of a) m)
    (gone : (t : ℕ) → load t c.pending ≡ some a → last ≡ false) where
  push-Sound :
      length o.0.queue < chan_capacity
      → Sound c.count (set c.channels a (pushed last m o.0)) c.pending
  push-Sound room =
      set-Sound s a o.0 (pushed last m o.0) o.1
        (pushed-IsChan last (tag_of a) m o.0 o.2 room fits (s.shaped a o.0 o.1)) gone

  -- It is done, and all is sound, or it waits.
  pub push-Sound_cases :
      ((out : Controller) × (push last a m c ≡ next out) × IsSound out) ⊎ (push last a m c ≡ blocks)
  push-Sound_cases = elim (push_cases last a m c o.0 o.1 o.2) [
    | inl (room, e) ↦ inl (store_chan a (pushed last m o.0) c, e, push-Sound room)
    | inr e ↦ inr e
  ]

-- The call of a tag that is deleted is the only one that had its channel.
pub deleted_unowned :
    (c : Controller) (tag a : ℕ)
    → IsSound c
    → load tag c.pending ≡ some a
    → (t : ℕ) → load t (delete tag c.pending) ≡ some a
    → true ≡ false
deleted_unowned c tag a s h t k = ground (
  arith,
  load-delete tag t c.pending,
  (s.owned tag a h).0,
  (s.owned t a (ground (arith, load-delete tag t c.pending))).0,
)
