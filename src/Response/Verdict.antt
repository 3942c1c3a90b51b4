-- ===== src/Response/Verdict.antt =====
-- What the client concludes from a reply.
use vyatta_webgui.Base.{
  ◌≡◌, refl, ◌≢◌, ◌⊎◌, inl, inr, true, false, Option, some, List, [], arith, Bool-cases,
}
use vyatta_webgui.Text.{Text, codes, text_eq, count}
use vyatta_webgui.Text.Equality.{text_eq_iff}
use vyatta_webgui.Replace.{replace}
use vyatta_webgui.Replace.Termination.{Replaced, replace-Replaced}
use vyatta_webgui.CommitErrors.{parse_commit_errors}
use vyatta_webgui.Response.{
  Browser, TreeMode, Parsed, Code, okay, expired, level, required, other, code_of, judge,
  line_break, ErrorNode, parse_server_callback, whole_message, without_unknown,
}

replace-line_break : (msg : Text) → Replaced line_break (replace msg line_break (codes "<br>"))
unfolding count
replace-line_break msg = replace-Replaced line_break (codes "<br>") 13 (omega arith) msg refl refl

-- The codes that are no failure.
abbrev pub IsFine : Text → Type 0
IsFine code = (code ≡ codes "0") ⊎ (code ≡ codes "3") ⊎ (code ≡ codes "4")

abbrev CodeFacts : Text → Code → Type 0
CodeFacts t okay = IsFine t
CodeFacts t expired = IsFine t
CodeFacts t level = IsFine t
CodeFacts t required = ¬ IsFine t
CodeFacts t other = ¬ IsFine t

code_of_lem : (t : Text) → CodeFacts t (code_of t)
unfolding code_of
code_of_lem t = elim (Bool-cases (text_eq t (codes "0"))) [
  | inl e ↦ rw e (inl ((text_eq_iff t (codes "0")).0 e))
  | inr n0 ↦ elim (Bool-cases (text_eq t (codes "3"))) [
    | inl e ↦ rw (n0, e) (inr (inl ((text_eq_iff t (codes "3")).0 e)))
    | inr n3 ↦ elim (Bool-cases (text_eq t (codes "4"))) [
      | inl e ↦ rw (n0, n3, e) (inr (inr ((text_eq_iff t (codes "4")).0 e)))
      | inr n4 ↦
          let bad : ¬ IsFine t = elim [
            | inl e ↦ cc ((text_eq_iff t (codes "0")).1 e)
            | inr (inl e) ↦ cc ((text_eq_iff t (codes "3")).1 e)
            | inr (inr e) ↦ cc ((text_eq_iff t (codes "4")).1 e)
          ] in
          elim (Bool-cases (text_eq t (codes "9"))) [
            | inl e ↦ rw (n0, n3, n4, e) bad
            | inr n9 ↦ rw (n0, n3, n4, n9) bad
          ]
    ]
  ]
]

-- What is concluded from a code and a message: a code that is fine succeeds and leaves the buffer of
-- commit errors alone; any other fails and fills the buffer from the message.
pub record Judged (b : Browser) (code msg : Text) (segment : Option Text)
    (errs : Option (List (List Text))) (p : Parsed) : Type 0 where
  pub fine : IsFine code → (p.success ≡ true) × (p.commit_errs ≡ errs)
  pub failed :
      ¬ IsFine code → (p.success ≡ false) × (p.commit_errs ≡ some (parse_commit_errors b.is_ie msg))
  pub passed : p.segment ≡ segment
  pub known : p.msg ≢ codes "UNKNOWN"

without_unknown-ne : (msg : Text) → without_unknown msg ≢ codes "UNKNOWN"
without_unknown-ne msg h = elim (Bool-cases (text_eq msg (codes "UNKNOWN"))) [
  | inl e ↦ cc (rw e at h)
  | inr e ↦ cc ((text_eq_iff msg (codes "UNKNOWN")).1 (rw e at h))
]

module _ (b : Browser) (mode : TreeMode) (msg : Text) (segment : Option Text)
    (errs : Option (List (List Text))) (t : Text) where
  judge-Judged :
      (c : Code)
      → CodeFacts t c
      → (p : Parsed) × (judge b mode c msg segment errs ≡ some p) × Judged b t msg segment errs p
  unfolding judge
  judge-Judged okay h = (
    _,
    refl,
    record {
      fine = λ _. (refl, refl);
      failed = λ n. absurd (n h);
      passed = refl;
      known = without_unknown-ne msg;
    },
  )
  judge-Judged expired h = (
    _,
    refl,
    record {
      fine = λ _. (refl, refl);
      failed = λ n. absurd (n h);
      passed = refl;
      known = without_unknown-ne msg;
    },
  )
  judge-Judged level h = (
    _,
    refl,
    record { fine = λ _. (refl, refl); failed = λ n. absurd (n h); passed = refl; known = λ e. cc },
  )
  judge-Judged required h = (
    _,
    refl,
    record { fine = λ f. absurd (h f); failed = λ _. (refl, refl); passed = refl; known = λ e. cc },
  )
  judge-Judged other h =
      let r = replace-line_break msg in
      (
        record {
          success = false;
          msg = without_unknown r.value;
          segment = segment;
          commit_errs = some (parse_commit_errors b.is_ie msg);
          effects = [];
        },
        rw (r.returns, judge),
        record {
          fine = λ f. absurd (h f);
          failed = λ _. (refl, refl);
          passed = refl;
          known = without_unknown-ne r.value;
        },
      )

-- A reply whose error element has a segment element is always understood, whatever its code and
-- message: a code that is fine succeeds and leaves the buffer of commit errors alone, any other
-- fails and fills it from the message; the segment is passed on, and the message is never the
-- text `UNKNOWN`.
pub parse_server_callback-Judged :
    (b : Browser) (mode : TreeMode) (err : ErrorNode) (content segment : Option Text)
    (errs : Option (List (List Text)))
    → err.segment ≡ some segment
    → (p : Parsed) × (parse_server_callback b mode
          (record { error = some err; text_content = content })
          errs
        ≡ some p)
      × Judged b err.code
          (whole_message b (record { error = some err; text_content = content }) err.msg)
          segment
          errs
          p
unfolding parse_server_callback
parse_server_callback-Judged b mode err content segment errs h =
    let (p, e, j) =
      judge-Judged b mode
        (whole_message b (record { error = some err; text_content = content }) err.msg) segment errs
        err.code (code_of err.code) (code_of_lem err.code) in
    (p, simp h e, j)
