-- ===== src/Daemon/Peers/Pulls/Exclusive.antt =====
-- src/daemon/peers.rs: a clip is pulled by one fetcher at a time.
use yank.Prelude.{
  ℕ, ◌==◌, ◌≡◌, ◌≢◌, refl, sym, ap, ◌∙◌, true, false, not, ◌&&◌, List, [], ◌∷◌, keep, arith, ◌⊎◌,
  inl, inr, Bool-cases, some,
}
use yank.Clip.Stamp.{Stamp}
use yank.Clip.Stamp.Order.{eq_option_iff}
use yank.Daemon.Peers.Pulls.{
  Task, idle, waiting, pulling, Pulls, eq_stamp, is_claimed, set_task, no_pulls, claim, released,
  drop, Reached, start, claims, drops,
}

-- The stamps that are claimed are those that are being pulled, each by one fetcher.
pub record IsExclusive (pulls : Pulls) : Type 0 where
  pub held :
      (t : ℕ) (stamp : Stamp) → pulls.task t ≡ pulling stamp → is_claimed stamp pulls.stamps ≡ true
  pub once :
      (t u : ℕ) (stamp : Stamp)
      → pulls.task t ≡ pulling stamp
      → pulls.task u ≡ pulling stamp
      → t ≡ u
  pub pulled :
      (stamp : Stamp)
      → is_claimed stamp pulls.stamps ≡ true
      → (t : ℕ) × (pulls.task t ≡ pulling stamp)

eq_stamp→eq : (a b : Stamp) → eq_stamp a b ≡ true → a ≡ b
eq_stamp→eq a b e = ground (arith, (eq_option_iff (some a) (some b)).0 e)

eq_stamp_refl : (a : Stamp) → eq_stamp a a ≡ true
eq_stamp_refl a = (eq_option_iff (some a) (some a)).1 refl

claimed-keep :
    (stamp other : Stamp) (stamps : List Stamp)
    → is_claimed other (keep (λ held. not (eq_stamp stamp held)) stamps)
      ≡ (is_claimed other stamps && not (eq_stamp stamp other))
claimed-keep stamp other [] = refl
claimed-keep stamp other (held ∷ stamps) = elim (Bool-cases (eq_stamp other held)) [
  | inl same ↦
      let eq : other ≡ held = eq_stamp→eq other held same in
      rw eq (
        ground (
          arith,
          claimed-keep stamp held stamps,
          eq_stamp_refl held,
          ap (λ s. is_claimed s stamps) eq,
        ))
  | inr apart ↦ ground (arith, claimed-keep stamp other stamps, apart)
]

-- What a fetcher does after another one has moved on.
set_task-other :
    (t u : ℕ) (task found : Task) (tasks : ℕ → Task)
    → (t == u) ≡ false
    → tasks u ≡ found
    → set_task t task tasks u ≡ found
set_task-other t u task found tasks apart e = ground (arith, apart, e)

still_pulling :
    (t u : ℕ) (task : Task) (stamp : Stamp) (tasks : ℕ → Task)
    → ((other : Stamp) → task ≢ pulling other)
    → set_task t task tasks u ≡ pulling stamp
    → ((t == u) ≡ false) × (tasks u ≡ pulling stamp)
still_pulling t u task stamp tasks free e = elim (Bool-cases (t == u)) [
  | inl same ↦ absurd (free stamp (ground (arith, e, same)))
  | inr apart ↦ (apart, ground (arith, e, apart))
]

now_pulling :
    (t u : ℕ) (stamp other : Stamp) (tasks : ℕ → Task)
    → set_task t (pulling stamp) tasks u ≡ pulling other
    → ((t ≡ u) × (stamp ≡ other)) ⊎ (tasks u ≡ pulling other)
now_pulling t u stamp other tasks e = elim (Bool-cases (t == u)) [
  | inl same ↦ inl (ground (arith, same), ground (arith, e, same))
  | inr apart ↦ inr (ground (arith, e, apart))
]

not_itself :
    (t u : ℕ) (stamp : Stamp) (tasks : ℕ → Task)
    → ((other : Stamp) → tasks t ≢ pulling other)
    → tasks u ≡ pulling stamp
    → (t == u) ≡ false
not_itself t u stamp tasks free e = elim (Bool-cases (t == u)) [
  | inl same ↦ absurd (free stamp (let eq : t ≡ u = ground (arith, same) in rw eq e))
  | inr apart ↦ apart
]

waiting-ne-pulling : (a b : Stamp) → waiting a ≢ pulling b
waiting-ne-pulling a b e = cc

idle-ne-pulling : (b : Stamp) → idle ≢ pulling b
idle-ne-pulling b e = cc

clash :
    (pulls : Pulls) (stamp s : Stamp) (u : ℕ)
    → IsExclusive pulls
    → is_claimed stamp pulls.stamps ≡ false
    → stamp ≡ s
    → pulls.task u ≡ pulling s
    → ⊥
clash pulls stamp s u h new same e =
    let taken : is_claimed stamp pulls.stamps ≡ true = rw same (h.held u s e) in cc

claim-IsExclusive :
    (t : ℕ) (stamp : Stamp) (pulls : Pulls)
    → ((other : Stamp) → pulls.task t ≢ pulling other)
    → IsExclusive pulls
    → IsExclusive (claim t stamp pulls)
unfolding claim
claim-IsExclusive t stamp pulls free h = elim (Bool-cases (is_claimed stamp pulls.stamps)) [
  | inl taken ↦ rw taken (record {
    held = λ u s e.
        h.held u s (still_pulling t u (waiting stamp) s pulls.task (waiting-ne-pulling stamp) e).1;
    once = λ u v s e f.
        h.once u v s (still_pulling t u (waiting stamp) s pulls.task (waiting-ne-pulling stamp) e).1
          (still_pulling t v (waiting stamp) s pulls.task (waiting-ne-pulling stamp) f).1;
    pulled = λ s e.
        let (u, p) = h.pulled s e in
        (
          u,
          set_task-other t u (waiting stamp) (pulling s) pulls.task
              (not_itself t u s pulls.task free p) p,
        );
  })
  | inr new ↦ rw new (record {
    held = λ u s e. elim (now_pulling t u stamp s pulls.task e) [
      | inl (_, same) ↦ rw same (ground (arith, eq_stamp_refl s))
      | inr p ↦ ground (arith, h.held u s p)
    ];
    once = λ u v s e f. elim (now_pulling t u stamp s pulls.task e) [
      | inl (own, same) ↦ elim (now_pulling t v stamp s pulls.task f) [
        | inl (own', _) ↦ sym own ∙ own'
        | inr q ↦ absurd (clash pulls stamp s v h new same q)
      ]
      | inr p ↦ elim (now_pulling t v stamp s pulls.task f) [
        | inl (_, same) ↦ absurd (clash pulls stamp s u h new same p)
        | inr q ↦ h.once u v s p q
      ]
    ];
    pulled = λ s e. elim (Bool-cases (eq_stamp s stamp)) [
      | inl same ↦ (t, ground (arith, eq_stamp→eq s stamp same))
      | inr other ↦
          let (u, p) = h.pulled s (ground (arith, e, other)) in
          (
            u,
            set_task-other t u (pulling stamp) (pulling s) pulls.task
                (not_itself t u s pulls.task free p) p,
          )
    ];
  })
]

released-IsExclusive :
    (t : ℕ) (task : Task) (pulls : Pulls)
    → pulls.task t ≡ task
    → IsExclusive pulls
    → IsExclusive (released t task pulls)
released-IsExclusive t idle pulls own h = h
released-IsExclusive t (waiting stamp) pulls own h = h
released-IsExclusive t (pulling stamp) pulls own h = record {
  held = λ u s e.
      let (apart, p) = still_pulling t u idle s pulls.task idle-ne-pulling e in
      claimed-keep stamp s pulls.stamps ∙ elim (Bool-cases (eq_stamp stamp s)) [
        | inl same ↦
            let mine : pulls.task t ≡ pulling s = own ∙ ap pulling (eq_stamp→eq stamp s same) in
            ground (arith, apart, h.once t u s mine p)
        | inr other ↦ ground (arith, h.held u s p, other)
      ];
  once = λ u v s e f.
      h.once u v s (still_pulling t u idle s pulls.task idle-ne-pulling e).1
        (still_pulling t v idle s pulls.task idle-ne-pulling f).1;
  pulled = λ s e.
      let kept : (is_claimed s pulls.stamps && not (eq_stamp stamp s)) ≡ true =
        sym (claimed-keep stamp s pulls.stamps) ∙ e in
      let (u, p) = h.pulled s (ground (arith, kept)) in
      (
        u,
        (elim (Bool-cases (t == u)) [
          | inl same ↦
              let eq : t ≡ u = ground (arith, same) in
              let stamps : stamp ≡ s =
                (let e' : pulling stamp ≡ pulling s = sym own ∙ ap pulls.task eq ∙ p in cc) in
              ground (arith, kept, eq_stamp_refl s, stamps)
          | inr apart ↦ set_task-other t u idle (pulling s) pulls.task apart p
        ]),
      );
}

start-IsExclusive : IsExclusive no_pulls
start-IsExclusive = record {
  held = λ t s e. absurd (idle-ne-pulling s e);
  once = λ t u s e f. absurd (idle-ne-pulling s e);
  pulled = λ s e. cc;
}

-- Whatever the fetchers do, in whatever order, the stamps that are claimed are those being pulled, and no
-- clip is pulled by two at a time.
pub Reached-IsExclusive : (pulls : Pulls) → Reached pulls → IsExclusive pulls
unfolding drop
Reached-IsExclusive pulls start = start-IsExclusive
Reached-IsExclusive pulls (claims t stamp before free reached) =
    claim-IsExclusive t stamp before free (Reached-IsExclusive before reached)
Reached-IsExclusive pulls (drops t before reached) =
    released-IsExclusive t (before.task t) before refl (Reached-IsExclusive before reached)
