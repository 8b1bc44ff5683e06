-- ===== src/Queue/PayloadLaws.antt =====
-- The objects of payloads, read as maps (src/queue/repository.ts).
use my_discord_agent.Base.{
  if◌then◌else◌, Bool-cases, or_else, String, ◌≡◌, refl, sym, ap, subst, ◌∙◌, inl, inr, true, false,
  none, some, List, [], ◌∷◌, arith, str_eq, eq_iff,
}
use my_discord_agent.Queue.Payload.{Json, Object, get, put, delete, delete_all, assign, has_key}

pub get-delete : (k : String) (o : Object) → get k (delete k o) ≡ none
unfolding get delete
get-delete k [] = refl
get-delete k ((j, w) ∷ o) =
    let rest : get k (delete k o) ≡ none = get-delete k o in
    elim (Bool-cases (str_eq j k)) [ inl hit ↦ rw hit rest | inr miss ↦ rw miss (rw miss rest) ]

pub delete-none : (k j : String) (o : Object) → get k o ≡ none → get k (delete j o) ≡ none
unfolding get delete
delete-none k j [] e = e
delete-none k j ((i, w) ∷ o) e = elim (Bool-cases (str_eq i k)) [
  | inl hit ↦ absurd (ground (arith, hit, e))
  | inr miss ↦
      let rest : get k (delete j o) ≡ none = delete-none k j o (rw miss at e) in
      elim (Bool-cases (str_eq i j)) [
        | inl gone ↦ rw gone rest
        | inr stays ↦ rw stays (rw miss rest)
      ]
]

delete_all-none :
    (k : String) (ks : List String) (o : Object) → get k o ≡ none → get k (delete_all ks o) ≡ none
unfolding delete_all
delete_all-none k [] o e = e
delete_all-none k (j ∷ ks) o e = delete_all-none k ks (delete j o) (delete-none k j o e)

pub get-delete_all :
    (k : String) (ks : List String) (o : Object)
    → has_key k ks ≡ true
    → get k (delete_all ks o) ≡ none
unfolding delete_all has_key
get-delete_all k [] o h = absurd (ground arith)
get-delete_all k (j ∷ ks) o h = elim (Bool-cases (str_eq j k)) [
  | inl hit ↦
      let same : j ≡ k = (eq_iff j k).0 hit in
      delete_all-none k ks (delete j o)
        (subst (λ z. get k (delete z o) ≡ none) (sym same) (get-delete k o))
  | inr miss ↦ get-delete_all k ks (delete j o) (rw miss at h)
]

pub get-put :
    (k j : String) (v : Json) (o : Object)
    → get k (put j v o) ≡ (if str_eq j k then some v else get k o)
unfolding get put
get-put k j v [] = refl
get-put k j v ((i, w) ∷ o) =
    let rest : get k (put j v o) ≡ (if str_eq j k then some v else get k o) = get-put k j v o in
    elim (Bool-cases (str_eq i j)) [
      | inl same ↦
          let is : str_eq i k ≡ str_eq j k = ap (λ z. str_eq z k) ((eq_iff i j).0 same) in
          rw same (elim (Bool-cases (str_eq j k)) [
            | inl hit ↦ rw (is, hit) refl
            | inr miss ↦ rw (is, miss) refl
          ])
      | inr differs ↦ rw differs (elim (Bool-cases (str_eq i k)) [
        | inl hit ↦ let other : str_eq j k ≡ false = apart i j k differs hit in rw (hit, other) refl
        | inr miss ↦ rw miss rest
      ])
    ]
  where
    apart : (i j k : String) → str_eq i j ≡ false → str_eq i k ≡ true → str_eq j k ≡ false
    apart i j k differs hit = elim (Bool-cases (str_eq j k)) [
      | inr miss ↦ miss
      | inl again ↦ absurd (
          let same = (eq_iff i j).1 ((eq_iff i k).0 hit ∙ sym ((eq_iff j k).0 again)) in
          ground (arith, differs, same))
    ]

-- The later object wins.
pub get-assign :
    (k : String) (o patch : Object) → get k (assign o patch) ≡ or_else (get k patch) (get k o)
unfolding assign get
get-assign k o [] = refl
get-assign k o ((j, v) ∷ patch) =
    let rest : get k (assign o patch) ≡ or_else (get k patch) (get k o) = get-assign k o patch in
    get-put k j v (assign o patch)
    ∙ elim (Bool-cases (str_eq j k)) [ inl hit ↦ rw hit refl | inr miss ↦ rw miss rest ]

get-delete_other : (k j : String) (o : Object) → str_eq j k ≡ false → get k (delete j o) ≡ get k o
unfolding get delete
get-delete_other k j [] other = refl
get-delete_other k j ((i, w) ∷ o) other =
    let rest : get k (delete j o) ≡ get k o = get-delete_other k j o other in
    elim (Bool-cases (str_eq i j)) [
      | inl same ↦
          let miss : str_eq i k ≡ false = ap (λ z. str_eq z k) ((eq_iff i j).0 same) ∙ other in
          rw (same, miss) rest
      | inr differs ↦
          rw differs
            (elim (Bool-cases (str_eq i k)) [ inl hit ↦ rw hit refl | inr miss ↦ rw miss rest ])
    ]

pub get-delete_all_other :
    (k : String) (ks : List String) (o : Object)
    → has_key k ks ≡ false
    → get k (delete_all ks o) ≡ get k o
unfolding delete_all has_key
get-delete_all_other k [] o h = refl
get-delete_all_other k (j ∷ ks) o h =
    get-delete_all_other k ks (delete j o) (ground (arith, h))
    ∙ get-delete_other k j o (ground (arith, h))
