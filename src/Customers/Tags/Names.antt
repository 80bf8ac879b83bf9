-- ===== src/Customers/Tags/Names.antt =====
-- What the calls on a tenant's tags store (`create_tag`, `update_tag`, `deactivate_tag`), and that
-- names stay distinct, for which the code relies on the constraint
-- `uq_customer_tag_definition_tenant_name`.
use kachu_v.Prelude.{
  All, Bool, Bool-cases, Error, List, Option, Option-cases, Result, String, [], any, arith, eq_iff,
  eq_refl, false, first, if◌then◌else◌, inl, inr, is_some, none, ok, raise, refl, some, strip,
  subst, sym, true, ℕ, ◌∙◌, ◌∷◌, ◌≡◌, ◌≢◌,
}
use kachu_v.Prelude.Laws.{test_unequal}
use kachu_v.Table.{IsKeyed, get_row, put_row}
use kachu_v.Table.Laws.{first_sound, get_row-put_row}
use kachu_v.Table.Pairs.{Pairs, get_row-of_first, put_row-Pairs, put_row-Pairs_found}
use kachu_v.Tenants.{get_tenant, tenant_row}
use kachu_v.Customers.{CustomerDb, Tag, assignment_row, entity_row, link_row, profile_row, tag_row}
use kachu_v.Customers.Tags.{
  commit_tag, create_tag, deactivate_tag, is_name_taken, is_tag, update_tag,
}

-- Neither takes the name of the other.
abbrev pub Differs : Tag → Tag → Type 0
Differs x y = is_name_taken x y ≡ false

abbrev pub IsNamed : List Tag → Type 0
IsNamed = Pairs Differs

Differs-symm : (x y : Tag) → Differs x y → Differs y x
Differs-symm x y h = ground (
  arith,
  eq_iff x.tenant_id y.tenant_id,
  eq_iff y.tenant_id x.tenant_id,
  eq_iff x.name y.name,
  eq_iff y.name x.name,
  eq_iff x.id y.id,
  eq_iff y.id x.id,
)

free-Differs :
    (tag : Tag) (tags : List Tag) → any (is_name_taken tag) tags ≡ false → All (Differs tag) tags
free-Differs tag [] h = tt
free-Differs tag (t ∷ tags) h = ground (arith, free-Differs tag tags)

-- The calls that write to the table of tags.
pub data TagCall : Type 0 where
  create : (now : ℕ) (new_id tenant name : String) → Option String → String → TagCall
  update : (now : ℕ) (tenant tag_id : String) → Option String → Option String → TagCall
  deactivate : (now : ℕ) (tenant tag_id : String) → TagCall

unfoldable pub run_tag : TagCall → CustomerDb → Result Tag × CustomerDb
run_tag (create now new_id tenant name color source) db =
    create_tag now new_id tenant name color source db
run_tag (update now tenant tag_id name color) db = update_tag now tenant tag_id name color db
run_tag (deactivate now tenant tag_id) db = deactivate_tag now tenant tag_id db

-- The key and the tenant of the row that a call is about.
abbrev pub key_of : TagCall → String
key_of (create now new_id tenant name color source) = new_id
key_of (update now tenant tag_id name color) = tag_id
key_of (deactivate now tenant tag_id) = tag_id

abbrev pub tenant_of : TagCall → String
tenant_of (create now new_id tenant name color source) = tenant
tenant_of (update now tenant tag_id name color) = tenant
tenant_of (deactivate now tenant tag_id) = tenant

-- What a call that returned the tag says of its name and its activity: a name that was given stands
-- without blanks around it, and what was not given is that of the stored tag of the tenant.
abbrev pub Fits : TagCall → CustomerDb → Tag → Type 0
Fits (create now new_id tenant name color source) db t =
    (t.name ≡ strip name) × (t.is_active ≡ true)
Fits (update now tenant tag_id name color) db t =
    (old : Tag) × (get_row tag_id db.tags ≡ some old)
    × (old.tenant_id ≡ tenant)
    × (((given : String) → name ≡ some given → t.name ≡ strip given)
        × (name ≡ none → t.name ≡ old.name)
        × (t.is_active ≡ old.is_active))
Fits (deactivate now tenant tag_id) db t =
    (old : Tag) × (get_row tag_id db.tags ≡ some old)
    × (old.tenant_id ≡ tenant)
    × ((t.name ≡ old.name) × (t.is_active ≡ false))

-- What a call leaves: names that differ, the rows of all other keys, and, if it returned a tag, that
-- tag of the tenant under the call's key.
abbrev pub TagKept : TagCall → CustomerDb → Result Tag × CustomerDb → Type 0
TagKept call db after =
    IsNamed after.1.tags
    × ((k : String) → key_of call ≢ k → get_row k after.1.tags ≡ get_row k db.tags)
    × ((t : Tag)
        → after.0 ≡ ok t
        → (get_row (key_of call) after.1.tags ≡ some t)
          × (t.tenant_id ≡ tenant_of call)
          × Fits call db t)

raised-TagKept :
    (call : TagCall) (db : CustomerDb) (e : Error) → IsNamed db.tags → TagKept call db (raise e, db)
raised-TagKept call db e h = (h, (λ k away. refl), (λ t done. absurd (cc (done))))

-- A write of a row that the call is about.
written-TagKept :
    (call : TagCall) (db : CustomerDb) (t : Tag)
    → t.id ≡ key_of call
    → t.tenant_id ≡ tenant_of call
    → Fits call db t
    → IsNamed (put_row t db.tags)
    → TagKept call db (ok t, record db { tags = put_row t db.tags })
written-TagKept call db t id tenant fits named = (
  named,
  λ k away. get_row-put_row k t db.tags ∙ rw (id, test_unequal (key_of call) k away) refl,
  λ s done.
      let same : t ≡ s = cc (done) in
      subst
        (λ x.
          (get_row (key_of call) (put_row t db.tags) ≡ some x)
          × (x.tenant_id ≡ tenant_of call)
          × Fits call db x)
        same
        (
          get_row-put_row (key_of call) t db.tags ∙ rw (id, eq_refl (key_of call)) refl,
          tenant,
          fits,
        ),
)

commit_tag-TagKept :
    (call : TagCall) (db : CustomerDb) (t : Tag)
    → IsNamed db.tags
    → t.id ≡ key_of call
    → t.tenant_id ≡ tenant_of call
    → Fits call db t
    → TagKept call db (commit_tag t db)
unfolding commit_tag
commit_tag-TagKept call db t h id tenant fits = elim (Bool-cases (any (is_name_taken t) db.tags)) [
  | inl taken ↦ rw taken (raised-TagKept call db _ h)
  | inr free ↦ rw free (
      written-TagKept call db t id tenant fits
        (put_row-Pairs Differs t db.tags Differs-symm (free-Differs t db.tags free) h))
]

-- The row that the query of `update_tag` and `deactivate_tag` found.
record Found (tenant tag_id : String) (db : CustomerDb) (t : Tag) : Type 0 where
  id : t.id ≡ tag_id
  in_tenant : t.tenant_id ≡ tenant
  stored : get_row tag_id db.tags ≡ some t

found_lem :
    (tenant tag_id : String) (db : CustomerDb) (t : Tag)
    → IsKeyed db.tags
    → first (is_tag tenant tag_id) db.tags ≡ some t
    → Found tenant tag_id db t
found_lem tenant tag_id db t keyed found =
    let fits = first_sound (is_tag tenant tag_id) t db.tags found in
    let id : t.id ≡ tag_id = ground (arith, eq_iff t.id tag_id) in
    record {
      id = id;
      in_tenant = ground (arith, eq_iff t.tenant_id tenant);
      stored =
          subst (λ k. get_row k db.tags ≡ some t) id
            (get_row-of_first (is_tag tenant tag_id) t db.tags keyed found);
    }

create_tag-TagKept :
    (now : ℕ) (new_id tenant name : String) (color : Option String) (source : String)
    (db : CustomerDb)
    → IsNamed db.tags
    → TagKept
        (create now new_id tenant name color source)
        db
        (create_tag now new_id tenant name color source db)
unfolding create_tag
create_tag-TagKept now new_id tenant name color source db h =
    let call = create now new_id tenant name color source in
    elim (Bool-cases (is_some (get_tenant tenant db.tenants))) [
      | inl there ↦
          let tag : Tag = record {
            id = new_id;
            tenant_id = tenant;
            name = strip name;
            color = elim color [ none ↦ "" | some c ↦ strip c ];
            source = source;
            is_active = true;
            deleted_at = none;
            created_at = now;
            updated_at = now;
          } in
          rw (there, create_tag) (commit_tag-TagKept call db tag h refl refl (refl, refl))
      | inr missing ↦ rw (missing, create_tag) (raised-TagKept call db _ h)
    ]

update_tag-TagKept :
    (now : ℕ) (tenant tag_id : String) (name color : Option String) (db : CustomerDb)
    → IsKeyed db.tags
    → IsNamed db.tags
    → TagKept (update now tenant tag_id name color) db (update_tag now tenant tag_id name color db)
unfolding update_tag
update_tag-TagKept now tenant tag_id name color db keyed h =
    elim (Option-cases (first (is_tag tenant tag_id) db.tags)) [
      | inl missing ↦
          rw (missing, update_tag) (raised-TagKept (update now tenant tag_id name color) db _ h)
      | inr (t, found) ↦
          let here = found_lem tenant tag_id db t keyed found in
          rw (found, update_tag)
            (commit_tag-TagKept (update now tenant tag_id name color) db _ h here.id here.in_tenant
              (t, here.stored, here.in_tenant, ((λ given e. rw e refl), (λ e. rw e refl), refl)))
    ]

deactivate_tag-TagKept :
    (now : ℕ) (tenant tag_id : String) (db : CustomerDb)
    → IsKeyed db.tags
    → IsNamed db.tags
    → TagKept (deactivate now tenant tag_id) db (deactivate_tag now tenant tag_id db)
unfolding deactivate_tag
deactivate_tag-TagKept now tenant tag_id db keyed h =
    elim (Option-cases (first (is_tag tenant tag_id) db.tags)) [
      | inl missing ↦
          rw (missing, deactivate_tag) (raised-TagKept (deactivate now tenant tag_id) db _ h)
      | inr (t, found) ↦
          let here = found_lem tenant tag_id db t keyed found in
          let call = deactivate now tenant tag_id in
          elim (Bool-cases t.is_active) [
            | inr idle ↦
                let same : deactivate_tag now tenant tag_id db ≡ (ok t, db) =
                  rw (found, deactivate_tag) (if_false t.is_active _ _ idle) in
                subst (TagKept call db) (sym same) (
                  h,
                  λ k away. refl,
                  λ s done.
                      subst
                        (λ x.
                          (get_row tag_id db.tags ≡ some x)
                          × (x.tenant_id ≡ tenant)
                          × Fits call db x)
                        (same_tag t s done)
                        (
                          here.stored,
                          here.in_tenant,
                          (t, here.stored, here.in_tenant, (refl, idle)),
                        ),
                )
            | inl active ↦
                rw (found, active, deactivate_tag)
                  (written-TagKept call db _ here.id here.in_tenant
                    (t, here.stored, here.in_tenant, (refl, refl))
                    (put_row-Pairs_found Differs
                      (record t { is_active = false; deleted_at = some now; updated_at = now }) t
                      db.tags (λ y d. d) (λ y d. d)
                      (get_row-of_first (is_tag tenant tag_id) t db.tags keyed found) h))
          ]
    ]
  where
    if_false : {A : Type 0} (b : Bool) (x y : A) → b ≡ false → (if b then x else y) ≡ y
    if_false b x y h = rw h refl

    same_tag : (x y : Tag) → ◌≡◌ {A = Result Tag} (ok x) (ok y) → x ≡ y
    same_tag x y e = cc

-- A creation, change or deactivation of a tag, on rows with keys of their own and of distinct names
-- in each tenant, keeps the names distinct and the rows of all other keys as they were, also where
-- it fails. If it returns a tag, that tag is of the tenant and stands under the key of the call; it
-- has the name that was given, without blanks around it, or else that of the stored tag of the
-- tenant, and it is active after a creation, as it was after a change, and not after a deactivation.
pub run_tag-TagKept :
    (call : TagCall) (db : CustomerDb)
    → IsKeyed db.tags
    → IsNamed db.tags
    → TagKept call db (run_tag call db)
unfolding run_tag
run_tag-TagKept (create now new_id tenant name color source) db keyed h =
    create_tag-TagKept now new_id tenant name color source db h
run_tag-TagKept (update now tenant tag_id name color) db keyed h =
    update_tag-TagKept now tenant tag_id name color db keyed h
run_tag-TagKept (deactivate now tenant tag_id) db keyed h =
    deactivate_tag-TagKept now tenant tag_id db keyed h
