-- ===== src/Evidence/ShareValue/Return.antt =====
-- What the return of packages/evidence/src/share-value.ts says of the two amounts.
use tr4ce_app.Prelude.{
  ℕ, ◌<◌, ◌≡◌, ◌≢◌, ◌↔◌, refl, ap, ◌∙◌, arith, subst, some, Result, ok, err, ◌>>=◌, Returns-ok,
}
use tr4ce_app.Prelude.Int.{
  ℤ, pos, negsuc, pos_part, neg_part, ◌+ℤ◌, ◌-ℤ◌, ◌*ℤ◌, ◌≤ℤ◌, ◌<ℤ◌, *ℤ_right_comm, -ℤ_parts,
  +ℤ_parts, eqb_ℤ_of_ne,
}
use tr4ce_app.Evidence.Failure.{Failure, out_of_range}
use tr4ce_app.Evidence.Rational.{Ratio, BasisPoints, reduce, to_basis_points}
use tr4ce_app.Evidence.Rational.Floor.{IsFloor}
use tr4ce_app.Evidence.Rational.Lowest.{IsLowest, reduce-IsLowest}
use tr4ce_app.Evidence.Rational.Points.{
  IsSafe, IsPoints, to_basis_points-IsPoints, IsFloor-rescale, ≤ℤ_scale, <ℤ_unscale,
}
use tr4ce_app.Evidence.ShareValue.{ShareValueResult, observed, unavailable, observe_share_value}

ne_of_positive : {d : ℤ} → pos 0 <ℤ d → d ≢ pos 0
ne_of_positive h e = omega (arith, ap pos_part e, ap neg_part e)

-- The floor is at least `t` exactly when the fraction is.
pub IsFloor-le_iff :
    (n q t : ℤ) (m : ℕ) → 0 < m → IsFloor n (pos m) q → (t ≤ℤ q) ↔ (t *ℤ pos m ≤ℤ n)
IsFloor-le_iff n q t m p (low, high) = (
  λ h. omega (arith, ≤ℤ_scale t q m h),
  λ h.
      let below : t <ℤ q +ℤ pos 1 = <ℤ_unscale t (q +ℤ pos 1) m (omega arith) in
      omega (arith, +ℤ_parts q (pos 1)),
)

-- A result that reports the number `q`, or refuses it as unsafe.
abbrev pub Reports : ℤ → Result Failure ShareValueResult → Type 0
Reports q (ok (observed b)) = IsSafe q × (b.value ≡ q)
Reports q (ok (unavailable f)) = ⊥
Reports q (err e) = (e ≡ out_of_range) × ¬ IsSafe q

-- The change in basis points of the start amount, exact and floored.
abbrev pub IsReturn : ℤ → ℤ → ℤ → Type 0
IsReturn start end q = IsFloor ((end -ℤ start) *ℤ pos 10000) start q

IsPoints-of_lowest :
    (n : ℤ) (m : ℕ) (r : Ratio)
    → 0 < m
    → IsLowest n (pos m) r
    → (q : ℤ) × IsFloor (n *ℤ pos 10000) (pos m) q × IsPoints r q (to_basis_points r)
IsPoints-of_lowest n m r p lowest = by_denominator r.denominator refl
  where
    value :
        (d : ℕ)
        → r.denominator ≡ pos d
        → r.numerator *ℤ pos 10000 *ℤ pos m ≡ n *ℤ pos 10000 *ℤ pos d
    value d e =
        *ℤ_right_comm r.numerator (pos 10000) (pos m)
        ∙ ap (λ t. t *ℤ pos 10000) (lowest.same_value ∙ ap (λ t. n *ℤ t) e)
        ∙ *ℤ_right_comm n (pos d) (pos 10000)

    by_denominator :
        (d : ℤ)
        → r.denominator ≡ d
        → (q : ℤ) × IsFloor (n *ℤ pos 10000) (pos m) q × IsPoints r q (to_basis_points r)
    by_denominator (pos d) e =
        let (q, f, points) = to_basis_points-IsPoints r (ne_of_positive lowest.positive) in
        (
          q,
          IsFloor-rescale (r.numerator *ℤ pos 10000) (n *ℤ pos 10000) q d m
              (omega (arith, lowest.positive, ap pos_part e, ap neg_part e)) p (value d e)
              (subst (λ t. IsFloor (r.numerator *ℤ pos 10000) t q) e f),
          points,
        )
    by_denominator (negsuc d) e =
        absurd (omega (arith, lowest.positive, ap pos_part e, ap neg_part e))

Reports-of :
    (r : Ratio) (q : ℤ) (m : Result Failure BasisPoints)
    → IsPoints r q m
    → Reports q (m >>= λ b. ok (observed b))
Reports-of r q (ok b) (safe, same, n, d) = (safe, same)
Reports-of r q (err e) h = h

-- From a positive start amount the result is the floor of the exact change in basis points; only a
-- floor beyond the safe integers is refused, and no reason code stands in for it.
pub observe_share_value-Reports :
    (m : ℕ) (end : ℤ)
    → 0 < m
    → (q : ℤ) × IsReturn (pos m) end q × Reports q (observe_share_value (some (pos m)) (some end))
unfolding observe_share_value
observe_share_value-Reports m end p =
    let start_ne : pos m ≢ pos 0 = ne_of_positive {d = pos m} (omega arith) in
    let (r, reduced, lowest) =
      Returns-ok (reduce (end -ℤ pos m) (pos m)) (reduce-IsLowest _ _ start_ne) in
    let (q, change, points) = IsPoints-of_lowest (end -ℤ pos m) m r p lowest in
    (q, change, rw (eqb_ℤ_of_ne start_ne, reduced) (Reports-of r q (to_basis_points r) points))

-- A larger end amount never lowers the reported return.
pub observe_share_value_mono :
    (m : ℕ) (end end' : ℤ) (b b' : BasisPoints)
    → 0 < m
    → end ≤ℤ end'
    → observe_share_value (some (pos m)) (some end) ≡ ok (observed b)
    → observe_share_value (some (pos m)) (some end') ≡ ok (observed b')
    → b.value ≤ℤ b'.value
observe_share_value_mono m end end' b b' p h e e' =
    let (q, change, reports) = observe_share_value-Reports m end p in
    let (q', change', reports') = observe_share_value-Reports m end' p in
    let same : (IsSafe q × (b.value ≡ q)) = subst (Reports q) e reports in
    let same' : (IsSafe q' × (b'.value ≡ q')) = subst (Reports q') e' reports' in
    let cleared : q *ℤ pos m ≤ℤ (end' -ℤ pos m) *ℤ pos 10000 = omega (
      arith,
      change.0,
      ≤ℤ_scale (end -ℤ pos m) (end' -ℤ pos m) 10000
          (omega (arith, -ℤ_parts end (pos m), -ℤ_parts end' (pos m))),
    ) in
    rw (same.1, same'.1) ((IsFloor-le_iff _ q' q m p change').1 cleared)
