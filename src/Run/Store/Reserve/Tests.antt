-- ===== src/Run/Store/Reserve/Tests.antt =====
-- internal/run/retained.go: a run that reserves a kilobyte.
use infercat.Common.{◌+◌, ◌≤◌, none, ◌≡◌, refl, true, false, some, pos, [], ◌∷◌, arith}
use infercat.Run.{ok, err, conflict, limit, image_output}
use infercat.Run.Store.{KeyData, Lease, lookup, remove, retained_budget}
use infercat.Run.Store.Tests.{no_image, small, sizes, key_data, one_run, changed, announcement}
use infercat.Run.Store.Commit.{commit_for, draft, ended, stamp_images, image_events}
use infercat.Run.Store.Reserve.{reserve_bytes, accepted}
use infercat.Run.Store.Reserve.Pays.{Meanwhile, nothing, commits, returns, drafted, reserve-pays}

abbrev kilobyte : Lease
kilobyte = record { late = false; bytes = 1024 }

abbrev reserved : KeyData
reserved = record key_data { leases = ("r_1", kilobyte) ∷ [] }

reserves : reserve_bytes small key_data "r_1" (pos 1024) ≡ ok reserved.leases
unfolding reserve_bytes
reserves = refl

once_only : reserve_bytes small reserved "r_1" (pos 1) ≡ err conflict
unfolding reserve_bytes
once_only = refl

never_more : reserve_bytes small key_data "r_1" (pos 200_000) ≡ err limit
unfolding reserve_bytes
never_more = refl

-- Meanwhile a commit for no run, and a run of the key that gives its lease back.
abbrev later : KeyData
later = (commit_for no_image small sizes 20 true none none one_run reserved).0

abbrev meanwhile : KeyData
meanwhile = record later { leases = remove "r_2" later.leases }

nobody_else :
    retained_budget small reserved none
      (sizes (drafted no_image small sizes 20 none one_run reserved))
    ≡ ok reserved.leases
unfolding retained_budget draft stamp_images image_events image_output
nobody_else = refl

goes_on : ended (lookup "r_1" (drafted no_image small sizes 20 none one_run reserved).runs) ≡ false
unfolding lookup draft stamp_images image_output
goes_on = refl

between : Meanwhile no_image small sizes "r_1" reserved meanwhile
between =
    returns "r_2" (commits 20 none none one_run reserved.leases nothing refl nobody_else goes_on)
      refl

grows :
    sizes (drafted no_image small sizes 21 announcement changed meanwhile)
    ≤ meanwhile.snapshot.encoded_bytes + 1024
unfolding commit_for retained_budget stamp_images image_events image_output
grows = omega arith

reserve-pays_example :
    accepted (commit_for no_image small sizes 21 true (some "r_1") announcement changed meanwhile).2
    ≡ true
reserve-pays_example =
    reserve-pays no_image small sizes key_data meanwhile "r_1" 1024 reserved.leases 21 announcement
      changed refl reserves between grows
