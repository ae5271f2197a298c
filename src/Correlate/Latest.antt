-- ===== src/Correlate/Latest.antt =====
-- The leaves of a vdev and the index of `build_zfs_index`, backend/ktnmgr/truenas/correlate.py, as
-- dictionaries where the last entry counts.
use ktn_enclosure_manager.Common.{
  Bool, Option, none, some, List, [], ◌∷◌, ◌++◌, if◌then◌else◌, ◌==◌, nat_eq, list_eq, ◌≡◌, refl,
  ◌∙◌, ap, Bool-cases, inl, inr, ==→≡,
}
use ktn_enclosure_manager.Common.Dict.{Dict, get, put, get-put, Once, put-Once}
use ktn_enclosure_manager.Common.Text.{Text}
use ktn_enclosure_manager.Bays.Model.{ZfsInfo}
use ktn_enclosure_manager.Correlate.Json.{}
use ktn_enclosure_manager.Correlate.Topology.{Placed, info, infos, latest}
use ktn_enclosure_manager.Correlate.Walked.{detail_of, put_details}
use ktn_enclosure_manager.Correlate.Zfs.{Detail}

pub put_placed : List (Text × Placed) → Dict Text Placed → Dict Text Placed
put_placed [] d = d
put_placed ((k, m) ∷ ms) d = put_placed ms (put k m d)

unfoldable pub as_details : Dict Text Placed → Dict Text Detail
as_details [] = []
as_details ((k, m) ∷ d) = (k, detail_of m) ∷ as_details d

pub as_details-put :
    (k : Text) (m : Placed) (d : Dict Text Placed)
    → put k (detail_of m) (as_details d) ≡ as_details (put k m d)
unfolding as_details put
as_details-put k m [] = refl
as_details-put k m ((j, n) ∷ d) = elim (Bool-cases (j == k)) [
  | inl same ↦ rw same refl
  | inr other ↦ rw other (ap (λ r. (j, detail_of n) ∷ r) (as_details-put k m d))
]

pub as_details-put_placed :
    (ms : List (Text × Placed)) (d : Dict Text Placed)
    → put_details ms (as_details d) ≡ as_details (put_placed ms d)
unfolding put_placed
as_details-put_placed [] d = refl
as_details-put_placed ((k, m) ∷ ms) d =
    ap (put_details ms) (as_details-put k m d) ∙ as_details-put_placed ms (put k m d)

pub put_placed-Once :
    (ms : List (Text × Placed)) (d : Dict Text Placed) → Once d → Once (put_placed ms d)
unfolding put_placed
put_placed-Once [] d h = h
put_placed-Once ((k, m) ∷ ms) d h = put_placed-Once ms (put k m d) (put-Once k m d h)

pub get-put_placed :
    (k : Text) (ms : List (Text × Placed)) (d : Dict Text Placed)
    → get k (put_placed ms d) ≡ latest k (get k d) ms
unfolding put_placed
get-put_placed k [] d = refl
get-put_placed k ((j, m) ∷ ms) d =
    get-put_placed k ms (put j m d) ∙ ap (λ o. latest k o ms) (get-put j k m d)

pub as_details-nothing : as_details [] ≡ []
unfolding as_details
as_details-nothing = refl

pub nothing-Once : Once {K = Text} {V = Placed} []
unfolding Once
nothing-Once = tt

pub get-nothing : (k : Text) → get {K = Text} {V = Placed} k [] ≡ none
unfolding get
get-nothing k = refl

-- The leaves of a vdev, put into the index.
unfoldable pub put_infos :
    Text → Bool → Bool → Dict Text Placed → Dict Text ZfsInfo → Dict Text ZfsInfo
put_infos pool in_spares res [] index = index
put_infos pool in_spares res ((k, m) ∷ d) index =
    put_infos pool in_spares res d (put k (info pool in_spares res m) index)

abbrev pub over : Text → Bool → Bool → Option Placed → Option ZfsInfo → Option ZfsInfo
over pool in_spares res none before = before
over pool in_spares res (some m) before = some (info pool in_spares res m)

pub get-put_infos :
    (pool : Text) (in_spares res : Bool) (k : Text) (d : Dict Text Placed)
    (index : Dict Text ZfsInfo)
    → Once d
    → get k (put_infos pool in_spares res d index) ≡ over pool in_spares res (get k d) (get k index)
unfolding put_infos get Once
get-put_infos pool in_spares res k [] index h = refl
get-put_infos pool in_spares res k ((j, m) ∷ d) index h =
    get-put_infos pool in_spares res k d (put j (info pool in_spares res m) index) h.1
    ∙ (ap (over pool in_spares res (get k d)) (get-put j k (info pool in_spares res m) index)
        ∙ elim (Bool-cases (j == k)) [
          | inl same ↦ rw (same, ← ==→≡ j k same, h.0) refl
          | inr other ↦ rw other refl
        ])

pub latest-infos :
    (pool : Text) (in_spares res : Bool) (k : Text) (o : Option Placed) (before : Option ZfsInfo)
    (ms : List (Text × Placed))
    → over pool in_spares res (latest k o ms) before
      ≡ latest k (over pool in_spares res o before) (infos pool in_spares res ms)
latest-infos pool in_spares res k o before [] = refl
latest-infos pool in_spares res k o before ((j, m) ∷ ms) =
    latest-infos pool in_spares res k (if j == k then some m else o) before ms
    ∙ ap (λ c. latest k c (infos pool in_spares res ms))
        (elim (Bool-cases (j == k)) [ inl same ↦ rw same refl | inr other ↦ rw other refl ])

pub latest-append :
    {A : Type 0} (k : Text) (before : Option A) (xs ys : List (Text × A))
    → latest k before (xs ++ ys) ≡ latest k (latest k before xs) ys
latest-append k before [] ys = refl
latest-append k before ((j, a) ∷ xs) ys = latest-append k (if j == k then some a else before) xs ys

pub no_entry : (k : Text) → get {K = Text} {V = ZfsInfo} k [] ≡ none
unfolding get
no_entry k = refl
