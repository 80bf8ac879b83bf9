-- ===== src/Approvals/ScheduleExamples.antt =====
-- The theorem on schedules at a concrete table, with a format that writes a dict of texts as a text
-- and reads it back: each character stands behind a mark, and a mark ends each text.
use Prim.Native.Char.{Char}
use kachu_v.Prelude.{
  Bool-cases, List, Option, String, [], ap, eq_iff, false, if◌then◌else◌, inl, inr, leb, none, not,
  ok, refl, some, strip, suc, zero, ℕ, ◌==◌, ◌∷◌, ◌≡◌,
}
use kachu_v.Tenants.{tenant_row}
use kachu_v.Approvals.{Approval, approval_row, get_pending_approval_by_run_id}
use kachu_v.Approvals.Due.{Formats, text_field}
use kachu_v.Approvals.Bridge.{Agents, Office, defer_with_schedule}
use kachu_v.Approvals.Unique.{drafts}
use kachu_v.Approvals.Backlog.{is_overdue}
use kachu_v.Approvals.Outcomes.{ReadsInstant, ReadsObjects, defer_with_schedule_due, field_or}

abbrev Dict : Type 0
Dict = List (String × String)

-- A text, and the rest of the encoding behind it.
abbrev written : String → String → String
written String.[] rest = String.◌∷◌ "e" (String.◌∷◌ "e" rest)
written (String.◌∷◌ c s) rest = String.◌∷◌ "c" (String.◌∷◌ c (written s rest))

abbrev encoded : Dict → String
encoded [] = ""
encoded (f ∷ fields) = written f.0 (written f.1 (encoded fields))

abbrev with_char : Char → List String → List String
with_char c [] = []
with_char c (s ∷ texts) = String.◌∷◌ c s ∷ texts

abbrev texts_of : String → List String
texts_of String.[] = []
texts_of (String.◌∷◌ m String.[]) = []
texts_of (String.◌∷◌ m (String.◌∷◌ c rest)) =
    let texts = texts_of rest in if String.◌∷◌ m "" == "c" then with_char c texts else "" ∷ texts

abbrev paired : List String → Dict
paired [] = []
paired (k ∷ []) = []
paired (k ∷ v ∷ texts) = (k, v) ∷ paired texts

abbrev value_of : Dict → String
value_of [] = ""
value_of (f ∷ fields) = f.1

abbrev decoded : String → Option Dict
decoded String.[] = none
decoded (String.◌∷◌ m s) = some (paired (texts_of s))

-- An instant is written as so many strokes and one more.
abbrev strokes : ℕ → String
strokes zero = "|"
strokes (suc n) = String.◌∷◌ "|" (strokes n)

abbrev read_strokes : String → Option ℕ
read_strokes String.[] = none
read_strokes (String.◌∷◌ c String.[]) = some 0
read_strokes (String.◌∷◌ c (String.◌∷◌ d s)) = elim (read_strokes (String.◌∷◌ d s)) [
  | none ↦ none
  | some n ↦ some (suc n)
]

abbrev coded : Formats Dict
coded = record {
  loads = decoded;
  dumps = λ d. String.◌∷◌ "d" (encoded d);
  get = λ key d. ok (some (("", field_or "" key d) ∷ []));
  truthy = λ d. not (value_of d == "");
  to_text = value_of;
  object = λ fields. fields;
  parse_instant = read_strokes;
  format_instant = strokes;
}

texts_of-written : (s rest : String) → texts_of (written s rest) ≡ s ∷ texts_of rest
texts_of-written String.[] rest = refl
texts_of-written (String.◌∷◌ c s) rest = rw (texts_of-written s rest) refl

paired-encoded : (fields : Dict) → paired (texts_of (encoded fields)) ≡ fields
paired-encoded [] = refl
paired-encoded (f ∷ fields) =
    rw
      (
        texts_of-written f.0 (written f.1 (encoded fields)),
        texts_of-written f.1 (encoded fields),
        paired-encoded fields,
      )
      refl

marked : (c : Char) (s : String) → (String.◌∷◌ c s == "") ≡ false
marked c s = elim (Bool-cases (String.◌∷◌ c s == "")) [
  | inl blank ↦ absurd (cc ((eq_iff (String.◌∷◌ c s) "").0 blank))
  | inr full ↦ full
]

-- `str(value or "").strip()` of a text is the text, stripped.
stripped : (s : String) → (if not (s == "") then strip s else "") ≡ strip s
unfolding strip
stripped s = elim (Bool-cases (s == "")) [
  | inr named ↦ rw named refl
  | inl blank ↦ rw ((eq_iff s "").0 blank) refl
]

coded-ReadsObjects : ReadsObjects coded
unfolding text_field strip
coded-ReadsObjects = record {
  full = λ fields. marked "d" (encoded fields);
  loads-dumps = λ fields. rw (paired-encoded fields) refl;
  text_field-object = λ key fields. ap ok (stripped (field_or "" key fields));
}

five-ReadsInstant : ReadsInstant coded 5
unfolding strip
five-ReadsInstant = record { bare = refl; named = refl; parse-format = refl }

abbrev agents : Agents Dict (List String)
agents = record {
  get_run = λ run w. ok (record { run_status = none; approvals = [] });
  decide = λ id decision actor payload w. (ok (record { run_status = none; approvals = [] }), w);
  after_approval_decision = λ tenant workflow outcome run w. (ok tt, w);
  after_preference_update = λ tenant platform original edited run workflow w. (ok tt, w);
  same = λ old new. false;
}

abbrev waiting : Approval
waiting = record {
  id = "a2";
  tenant_id = "t1";
  agentos_task_id = "k1";
  agentos_run_id = "r2";
  workflow_type = "kachu_google_post";
  review_id = "";
  draft_content = "{}";
  status = "pending";
  actor_line_id = "o1";
  decision_payload_json = "";
  created_at = 1;
  updated_at = 1;
  decided_at = none;
}

abbrev office : Office (List String)
office = record { approvals = waiting ∷ []; world = [] }

waiting_found : drafts office.approvals "r2" ≡ some waiting
unfolding get_pending_approval_by_run_id
waiting_found = refl

defer_with_schedule_due_example :
    (a : Approval) × (drafts
        (defer_with_schedule coded agents 3 [] "r2" "t1" "o1" "||||||" office).1.approvals
        "r2"
      ≡ some a)
    × ((now : ℕ) → is_overdue coded now a ≡ leb 5 now)
defer_with_schedule_due_example =
    defer_with_schedule_due coded agents 3 [] "r2" "t1" "o1" "||||||" office waiting 5
      ((refl, tt), (tt, tt)) waiting_found refl coded-ReadsObjects five-ReadsInstant
