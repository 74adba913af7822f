-- ===== src/Server/Serving/Ended.antt =====
-- The loop over the spliced controllers, round by round.
use totem.Base.{
  ℕ, suc, ◌≡◌, refl, true, some, List, [], ◌∷◌, ◌≤◌, All, length, Bool-cases, inl, inr, arith,
}
use totem.Status.{Err}
use totem.Controller.{Controller}
use totem.Controller.Sending.{kick_with}
use totem.Server.{Link}
use totem.Server.Serving.{Ending, runs, at_end, ends, begin_round, next_round}

-- A spliced controller that was kicked and whose CloseOrRecv has returned.
pub record IsEnded (link : Link) : Type 0 where
  pub closed : link.closed ≡ true
  pub kicked : link.state.kicked ≡ true

-- The spliced controllers before this index were kicked and closed, and the one there was kicked.
abbrev pub EndedBefore : ℕ → List Link → Type 0
EndedBefore i [] = Unit
EndedBefore ℕ.zero (link ∷ links) = link.state.kicked ≡ true
EndedBefore (ℕ.suc i) (link ∷ links) = IsEnded link × EndedBefore i links

-- How far the goroutine of `Run` has come with the spliced controllers: the loop goes from one to the
-- next, and at its end all are ended.
abbrev pub Progress : Ending → List Link → Type 0
Progress runs links = ⊥
Progress (ends e i) links = EndedBefore i links
Progress at_end links = All IsEnded links

kick_with-kicked : (e : Err) (c : Controller) → (kick_with e c).kicked ≡ true
unfolding kick_with
kick_with-kicked e c = elim (Bool-cases c.kicked) [ inl y ↦ rw y refl | inr n ↦ rw n refl ]

pub begin_round-EndedBefore :
    (e : Err) (links : List Link) → EndedBefore 0 (begin_round (some e) links)
begin_round-EndedBefore e [] = tt
begin_round-EndedBefore e (link ∷ links) = kick_with-kicked e link.state

pub next_round-EndedBefore :
    (e : Err) (i : ℕ) (links : List Link)
    → EndedBefore i links
    → EndedBefore (suc i) (next_round (some e) i links)
unfolding next_round
next_round-EndedBefore e i [] h = tt
next_round-EndedBefore e ℕ.zero (link ∷ links) h =
    (record { closed = refl; kicked = h }, begin_round-EndedBefore e links)
next_round-EndedBefore e (ℕ.suc i) (link ∷ links) (end, h) =
    (end, next_round-EndedBefore e i links h)

pub EndedBefore-All :
    (i : ℕ) (links : List Link) → length links ≤ i → EndedBefore i links → All IsEnded links
EndedBefore-All i [] le h = tt
EndedBefore-All ℕ.zero (link ∷ links) le h = absurd (omega (arith, le))
EndedBefore-All (ℕ.suc i) (link ∷ links) le (end, h) =
    (end, EndedBefore-All i links (omega (arith, le)) h)
