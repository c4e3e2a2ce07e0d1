-- ===== src/Registry/Rollback.antt =====
-- `freeze_all` and `resume_skipping` of src/registry.rs: where each frozen session goes.
use traffic_director.Registry.{
  FrozenSession, Reply, froze, has, take_out, resume_each, FreezeBatch, add_reply, freeze_each,
  resume_skipping, freeze_all,
}
use traffic_director.Prelude.{
  ℕ, ◌≡◌, ap, ◌∙◌, true, false, List, [], ◌∷◌, arith, ◌==◌, if◌then◌else◌, zero, suc, sym, ◌||◌,
  ◌++◌, append-nil, append_assoc, ==_iff, drop, take,
}
use mathlib.Core.Path.{refl, subst}

abbrev pub said : Reply → List FrozenSession
said (froze s) = s ∷ []
said _ = []

-- The sessions that reply, in the order of the requests.
abbrev pub replied : List ℕ → (ℕ → Reply) → List FrozenSession
replied [] replies = []
replied (id ∷ ids) replies = said (replies id) ++ replied ids replies

abbrev pub ids_of : List FrozenSession → List ℕ
ids_of [] = []
ids_of (s ∷ frozen) = s.id ∷ ids_of frozen

abbrev pub Unique : List ℕ → Type 0
Unique [] = Unit
Unique (k ∷ ids) = (has ids k ≡ false) × Unique ids

-- Each session with the channel over which it goes back.
abbrev pub returned : List FrozenSession → List (ℕ × FrozenSession)
returned [] = []
returned (s ∷ frozen) = (s.id, s) ∷ returned frozen

has-take_out :
    (ids : List ℕ) (id j : ℕ) → has (take_out ids id) j ≡ (if id == j then false else has ids j)
unfolding take_out
has-take_out [] id j = ground arith
has-take_out (k ∷ ids) id j = ground (arith, has-take_out ids id j)

-- The channels of these sessions are there.
abbrev Open : List ℕ → List FrozenSession → Type 0
Open resumes [] = Unit
Open resumes (s ∷ frozen) = (has resumes s.id ≡ true) × Open resumes frozen

take_out-Open :
    (resumes : List ℕ) (id : ℕ) (frozen : List FrozenSession)
    → has (ids_of frozen) id ≡ false
    → Open resumes frozen
    → Open (take_out resumes id) frozen
take_out-Open resumes id [] h o = tt
take_out-Open resumes id (s ∷ frozen) h o =
    ground (arith, has-take_out resumes id s.id, take_out-Open resumes id frozen)

resume_each_lem :
    (frozen : List FrozenSession) (resumes : List ℕ)
    → Unique (ids_of frozen)
    → Open resumes frozen
    → ((resume_each frozen resumes).0 ≡ returned frozen)
      × ((j : ℕ)
          → has (resume_each frozen resumes).1 j
            ≡ (if has (ids_of frozen) j then false else has resumes j))
unfolding resume_each
resume_each_lem [] resumes u o = (refl, λ j. refl)
resume_each_lem (s ∷ frozen) resumes u o =
    let (back, rest) =
      resume_each_lem frozen (take_out resumes s.id) u.1
        (take_out-Open resumes s.id frozen u.0 o.1) in
    (
      rw o.0 (ap (◌∷◌ (s.id, s)) back),
      λ j. rw o.0 (rest j ∙ ground (arith, has-take_out resumes s.id j)),
    )

-- A session replies under its own identifier.
abbrev pub Honest : (ℕ → Reply) → Type 0
Honest replies = (id : ℕ) (s : FrozenSession) → replies id ≡ froze s → s.id ≡ id

add_reply-frozen :
    (id : ℕ) (r : Reply) (b : FreezeBatch) → (add_reply id r b).frozen ≡ b.frozen ++ said r
unfolding add_reply
add_reply-frozen id (froze s) b = refl
add_reply-frozen id _ b = sym (append-nil b.frozen)

has-add_reply :
    (id : ℕ) (r : Reply) (b : FreezeBatch) (j : ℕ)
    → ((s : FrozenSession) → r ≡ froze s → s.id ≡ id)
    → has (add_reply id r b).resumes j ≡ (has b.resumes j || has (ids_of (said r)) j)
unfolding add_reply
has-add_reply id (froze s) b j honest = let own : s.id ≡ id = honest s refl in ground (arith, own)
has-add_reply id _ b j honest = ground arith

has-ids_of-append :
    (xs ys : List FrozenSession) (j : ℕ)
    → has (ids_of (xs ++ ys)) j ≡ (has (ids_of xs) j || has (ids_of ys) j)
has-ids_of-append [] ys j = refl
has-ids_of-append (x ∷ xs) ys j = ground (arith, has-ids_of-append xs ys j)

freeze_each-frozen :
    (ids : List ℕ) (replies : ℕ → Reply) (b : FreezeBatch)
    → (freeze_each ids replies b).frozen ≡ b.frozen ++ replied ids replies
unfolding freeze_each
freeze_each-frozen [] replies b = sym (append-nil b.frozen)
freeze_each-frozen (id ∷ ids) replies b =
    freeze_each-frozen ids replies (add_reply id (replies id) b)
    ∙ (ap (λ f. f ++ replied ids replies) (add_reply-frozen id (replies id) b)
        ∙ append_assoc b.frozen (said (replies id)) (replied ids replies))

has-freeze_each :
    (ids : List ℕ) (replies : ℕ → Reply) (b : FreezeBatch) (j : ℕ)
    → Honest replies
    → has (freeze_each ids replies b).resumes j
      ≡ (has b.resumes j || has (ids_of (replied ids replies)) j)
unfolding freeze_each
has-freeze_each [] replies b j honest = ground arith
has-freeze_each (id ∷ ids) replies b j honest = ground (
  arith,
  has-freeze_each ids replies (add_reply id (replies id) b) j honest,
  has-add_reply id (replies id) b j (honest id),
  has-ids_of-append (said (replies id)) (replied ids replies) j,
)

-- What was not asked does not reply.
said-absent :
    (id j : ℕ) (r : Reply)
    → ((s : FrozenSession) → r ≡ froze s → s.id ≡ id)
    → (id == j) ≡ false
    → has (ids_of (said r)) j ≡ false
said-absent id j (froze s) honest other = let own : s.id ≡ id = honest s refl in ground (arith, own)
said-absent id j _ honest other = refl

replied-absent :
    (ids : List ℕ) (replies : ℕ → Reply) (j : ℕ)
    → Honest replies
    → has ids j ≡ false
    → has (ids_of (replied ids replies)) j ≡ false
replied-absent [] replies j honest h = refl
replied-absent (id ∷ ids) replies j honest h = ground (
  arith,
  has-ids_of-append (said (replies id)) (replied ids replies) j,
  said-absent id j (replies id) (honest id),
  replied-absent ids replies j honest,
)

said-Unique :
    (id : ℕ) (r : Reply) (rest : List FrozenSession)
    → ((s : FrozenSession) → r ≡ froze s → s.id ≡ id)
    → has (ids_of rest) id ≡ false
    → Unique (ids_of rest)
    → Unique (ids_of (said r ++ rest))
said-Unique id (froze s) rest honest h u = (rw (honest s refl) h, u)
said-Unique id _ rest honest h u = u

replied-Unique :
    (ids : List ℕ) (replies : ℕ → Reply)
    → Honest replies
    → Unique ids
    → Unique (ids_of (replied ids replies))
replied-Unique [] replies honest u = tt
replied-Unique (id ∷ ids) replies honest u =
    said-Unique id (replies id) (replied ids replies) (honest id)
      (replied-absent ids replies id honest u.0) (replied-Unique ids replies honest u.1)

drop-Unique :
    (n : ℕ) (frozen : List FrozenSession) → Unique (ids_of frozen) → Unique (ids_of (drop n frozen))
drop-Unique zero frozen u = u
drop-Unique (suc n) [] u = u
drop-Unique (suc n) (s ∷ frozen) u = drop-Unique n frozen u.1

has-drop :
    (n : ℕ) (frozen : List FrozenSession) (j : ℕ)
    → has (ids_of (drop n frozen)) j ≡ true
    → has (ids_of frozen) j ≡ true
has-drop zero frozen j h = h
has-drop (suc n) [] j h = h
has-drop (suc n) (s ∷ frozen) j h = ground (arith, has-drop n frozen j)

-- What is not dropped is taken.
has-take :
    (n : ℕ) (frozen : List FrozenSession) (j : ℕ)
    → Unique (ids_of frozen)
    → (if has (ids_of (drop n frozen)) j then false else has (ids_of frozen) j)
      ≡ has (ids_of (take n frozen)) j
has-take zero frozen j u = ground arith
has-take (suc n) [] j u = refl
has-take (suc n) (s ∷ frozen) j u =
    ground (arith, has-take n frozen j u.1, has-drop n frozen j, ==_iff s.id j)

Open-of :
    (resumes : List ℕ) (xs : List FrozenSession)
    → ((j : ℕ) → has (ids_of xs) j ≡ true → has resumes j ≡ true)
    → Open resumes xs
Open-of resumes [] h = tt
Open-of resumes (x ∷ xs) h = (h x.id (ground arith), Open-of resumes xs (λ j m. h j (ground arith)))

-- Of the sessions that were asked to freeze, each once, the batch holds those that replied, in the
-- order of the requests. Resuming all but the first `sent` sends every later session, and no other,
-- its own snapshot over its own channel, and drops the channels of exactly the first `sent`.
pub resume_skipping-freeze_all :
    (ids : List ℕ) (replies : ℕ → Reply) (sent : ℕ)
    → Unique ids
    → Honest replies
    → let batch : FreezeBatch = freeze_all ids replies in
      (batch.frozen ≡ replied ids replies)
      × ((resume_skipping batch sent).0 ≡ returned (drop sent batch.frozen))
      × ((j : ℕ) → has (resume_skipping batch sent).1 j ≡ has (ids_of (take sent batch.frozen)) j)
unfolding resume_skipping freeze_all
resume_skipping-freeze_all ids replies sent u honest =
    let batch : FreezeBatch = freeze_all ids replies in
    let frozen : batch.frozen ≡ replied ids replies =
      freeze_each-frozen ids replies (record { frozen = []; resumes = [] }) in
    let unique : Unique (ids_of batch.frozen) =
      subst (λ f. Unique (ids_of f)) (sym frozen) (replied-Unique ids replies honest u) in
    let open_ids : (j : ℕ) → has batch.resumes j ≡ has (ids_of batch.frozen) j = λ j.
      has-freeze_each ids replies (record { frozen = []; resumes = [] }) j honest
      ∙ ap (λ f. has (ids_of f) j) (sym frozen) in
    let (back, rest) =
      resume_each_lem (drop sent batch.frozen) batch.resumes (drop-Unique sent batch.frozen unique)
        (Open-of batch.resumes (drop sent batch.frozen)
          (λ j m. open_ids j ∙ has-drop sent batch.frozen j m)) in
    (
      frozen,
      back,
      λ j.
          rest j
          ∙ (ap (λ h. if has (ids_of (drop sent batch.frozen)) j then false else h) (open_ids j)
              ∙ has-take sent batch.frozen j unique),
    )
