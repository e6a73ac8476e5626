-- ===== src/Events/Drafted.antt =====
-- What a draft that was written looks like.
use astrea.Prelude.{
  ℕ, suc, ◌≤◌, ◌<◌, ◌≡◌, ◌≢◌, ◌↔◌, All, refl, sym, ap, inl, inr, true, Option, none, some, List, [],
  ◌∷◌, ◌++◌, map, Text, codes, ok, err, arith, Option-cases, Result-cases, Bool-cases, length, trim,
  ◌===◌, take, if◌then◌else◌,
}
use mathlib.Core.Path.{subst}
use astrea.Prelude.Int.{ℤ, pos, negsuc}
use astrea.Schema.{Prize, Wallet}
use astrea.Amount.{parse_usdc_amount, sum_usdc_amounts}
use astrea.Amount.Units.{Reads, none_left, one_more}
use astrea.Amount.Column.{IsColumn, column-sum_iff}
use astrea.Auth.Crypto.{Crypto, is_address}
use astrea.Auth.Session.{Request, get_session_wallet}
use astrea.Events.Draft.{
  CreateDraftEventInput, Calendar, NewPrize, DraftError, check_prizes, check_some_prizes,
  is_bad_length, check_deadline, prize_rows, event_row, judge_row, create_draft_event,
}

-- The ranks that `count` rows have from `n` on.
abbrev pub ranks_from : ℕ → List Text → List ℕ
ranks_from n [] = []
ranks_from n (raw ∷ raws) = n ∷ ranks_from (suc n) raws

-- The prizes are the texts of the form in their order, trimmed, and each is an amount.
pub record Checked (n : ℕ) (raws : List Text) (ps : List NewPrize) : Type 0 where
  pub values : List ℕ
  pub amounts : map (λ p. p.amount) ps ≡ map trim raws
  pub ranks : map (λ p. p.rank) ps ≡ ranks_from n raws
  pub read : Reads (map (λ p. p.amount) ps) values

check_prizes-Checked :
    (n : ℕ) (raws : List Text) (ps : List NewPrize)
    → check_prizes n raws ≡ ok ps
    → Checked n raws ps
unfolding check_prizes
check_prizes-Checked n [] ps h =
    let same : [] ≡ ps = ground arith in
    subst (λ qs. Checked n [] qs) same
      (record { values = []; amounts = refl; ranks = refl; read = none_left })
check_prizes-Checked n (raw ∷ raws) ps h = elim (Option-cases (parse_usdc_amount (trim raw))) [
  | inl missed ↦ absurd (ground arith)
  | inr (v, is) ↦ elim (Result-cases (check_prizes (suc n) raws)) [
    | inr (e, bad) ↦ absurd (ground arith)
    | inl (qs, later) ↦
        let c = check_prizes-Checked (suc n) raws qs later in
        let same : record { rank = n; amount = trim raw } ∷ qs ≡ ps = ground arith in
        subst (λ rs. Checked n (raw ∷ raws) rs) same
          (record {
            values = v ∷ c.values;
            amounts = ap (λ t. trim raw ∷ t) c.amounts;
            ranks = ap (λ t. n ∷ t) c.ranks;
            read = one_more is c.read;
          })
  ]
]

check_some_lem :
    (raws : List Text) (ps : List NewPrize)
    → check_some_prizes raws ≡ ok ps
    → (raws ≢ []) × (check_prizes 1 raws ≡ ok ps)
check_some_lem [] ps h = absurd (ground arith)
check_some_lem (raw ∷ raws) ps h = (λ e. ground arith, h)

check_deadline_lem :
    (now t : ℕ) (o : Option ℤ) → check_deadline now o ≡ ok t → (o ≡ some (pos t)) × (now < t)
check_deadline_lem now t none h = absurd (ground arith)
check_deadline_lem now t (some (negsuc n)) h = absurd (ground arith)
check_deadline_lem now t (some (pos n)) h = ground arith

amounts_stored :
    (column : Text → Text) (new_id : ℕ → Text) (event_id : Text) (ps : List NewPrize)
    → map (λ (p : Prize). p.amount) (prize_rows column new_id event_id ps)
      ≡ map column (map (λ p. p.amount) ps)
amounts_stored column new_id event_id [] = refl
amounts_stored column new_id event_id (p ∷ ps) =
    ap (λ as'. column p.amount ∷ as') (amounts_stored column new_id event_id ps)

module _ (crypto : Crypto) (calendar : Calendar) (column : Text → Text) (now : ℕ)
    (refused : Option Text) (event_id : Text) (new_id : ℕ → Text)
    (input : CreateDraftEventInput) where
  -- The session's wallet is the organizer of the new event; the fields kept their limits.
  pub record Drafted (req req' : Request) : Type 0 where
    pub wallet : Wallet
    pub session : get_session_wallet req ≡ some wallet
    pub named : (1 ≤ length (trim input.name)) × (length (trim input.name) ≤ 120)
    pub prizes : List NewPrize
    pub any_prize : input.prizes ≢ []
    pub checked : Checked 1 input.prizes prizes
    pub total :
        ((n : ℕ) × (sum_usdc_amounts
              (map (λ (p : Prize). p.amount) (prize_rows column new_id event_id prizes))
            ≡ ok n))
        ↔ All (λ v. 10 ≤ v) checked.values
    pub judge : is_address crypto (trim input.judge_address) ≡ true
    pub other_judge : trim input.judge_address ≢ wallet.address
    pub deadline : ℕ
    pub date : calendar.date_parse input.judging_deadline_at ≡ some (pos deadline)
    pub future : now < deadline
    pub zone : Text
    pub event_written :
        req'.db.events
        ≡ event_row event_id wallet
            (trim input.name)
            (take 2000 (trim input.description))
            deadline
            zone
          ∷ req.db.events
    pub prizes_written : req'.db.prizes ≡ prize_rows column new_id event_id prizes ++ req.db.prizes
    pub judge_written :
        req'.db.judges
        ≡ judge_row event_id (trim input.judge_address) (trim input.judge_name) ∷ req.db.judges

  total_of :
      IsColumn column
      → (ps : List NewPrize) (c : Checked 1 input.prizes ps)
      → ((n : ℕ) × (sum_usdc_amounts
              (map (λ (p : Prize). p.amount) (prize_rows column new_id event_id ps))
            ≡ ok n))
        ↔ All (λ v. 10 ≤ v) c.values
  total_of is_column ps c =
      subst (λ as'. ((n : ℕ) × (sum_usdc_amounts as' ≡ ok n)) ↔ All (λ v. 10 ≤ v) c.values)
        (sym (amounts_stored column new_id event_id ps))
        (column-sum_iff column is_column (map (λ p. p.amount) ps) c.values c.read)

  -- If a draft is returned, then a signed-in wallet is its organizer, its name has 1 to 120 units, and it
  -- has at least one prize, ranked from 1 in the form's order, each with an amount that parses; its one
  -- judge has a valid address other than the organizer's, the deadline lies ahead, and event, prizes and
  -- judge were all written. Where a stored amount reads back as the Decimal's toString, the amounts of
  -- the stored prizes can be summed up exactly when none is below a millionth of a USDC.
  pub create_draft_event-Drafted :
      IsColumn column
      → (req req' : Request) (id : Text)
      → create_draft_event crypto calendar column now refused event_id new_id input req
        ≡ (ok id, req')
      → Drafted req req'
  unfolding create_draft_event
  create_draft_event-Drafted is_column req req' id h =
      elim (Option-cases (get_session_wallet req)) [
        | inl missing ↦ absurd (ground arith)
        | inr (s, session) ↦ elim (Bool-cases (is_bad_length 120 (trim input.name))) [
          | inl bad ↦ absurd (ground arith)
          | inr named ↦ elim (Result-cases (check_some_prizes input.prizes)) [
            | inr (e, bad) ↦ absurd (ground arith)
            | inl (ps, some_prizes) ↦
                elim (Bool-cases (is_address crypto (trim input.judge_address))) [
                  | inr bad ↦ absurd (ground arith)
                  | inl judge ↦ elim (Bool-cases (trim input.judge_address === s.address)) [
                    | inl own ↦ absurd (ground arith)
                    | inr other ↦ elim (Bool-cases (is_bad_length 80 (trim input.judge_name))) [
                      | inl bad ↦ absurd (ground arith)
                      | inr judge_named ↦
                          elim (Result-cases
                            (check_deadline now (calendar.date_parse input.judging_deadline_at))) [
                              | inr (e, bad) ↦ absurd (ground arith)
                              | inl (deadline, ahead) ↦
                                  let (any, listed) = check_some_lem input.prizes ps some_prizes in
                                  let (date, future) =
                                    check_deadline_lem now deadline
                                      (calendar.date_parse input.judging_deadline_at) ahead in
                                  let c = check_prizes-Checked 1 input.prizes ps listed in
                                  record {
                                    wallet = s;
                                    session = session;
                                    named = (ground arith, ground arith);
                                    prizes = ps;
                                    any_prize = any;
                                    checked = c;
                                    total = total_of is_column ps c;
                                    judge = judge;
                                    other_judge = ground arith;
                                    deadline = deadline;
                                    date = date;
                                    future = future;
                                    zone =
                                        if calendar.is_time_zone input.timezone
                                        then input.timezone
                                        else codes "UTC";
                                    event_written = ground arith;
                                    prizes_written = ground arith;
                                    judge_written = ground arith;
                                  }
                            ]
                    ]
                  ]
                ]
          ]
        ]
      ]

  -- A draft that is refused, whatever the reason, leaves the tables and the session as they were.
  pub create_draft_event_err :
      (req : Request) (e : DraftError)
      → (create_draft_event crypto calendar column now refused event_id new_id input req).0 ≡ err e
      → (create_draft_event crypto calendar column now refused event_id new_id input req).1 ≡ req
  unfolding create_draft_event
  create_draft_event_err req e h = ground arith
