-- ===== src/Persist/Steps/Examples.antt =====
-- Edits of rust/src/workspace/persist.rs whose draft statement the database refuses after a flush.
use burlmd.Prelude.{◌≡◌, ◌⊎◌, false, some, [], ◌∷◌}
use burlmd.Prelude.Text.{Text, codes}
use burlmd.Error.{AppError, Result, ok, err}
use burlmd.Markdown.Ast.{Nodes}
use burlmd.Markdown.Spans.{SpanMap, BlockPath, BlockSpan, block}
use burlmd.Persist.{SessionState, Note}
use burlmd.Persist.Session.{replace_range}
use burlmd.Persist.Edit.{
  begin_update, update_block, DeriveFunction, Planned, plan_structural, structural_edit_with_result,
}
use burlmd.Persist.Blocks.{insert_block_edit}
use burlmd.Persist.Write.{flush_covering}
use burlmd.Persist.Fixtures.{one_core}
use burlmd.Persist.Examples.{id, hello_note, locked, no_failure}
use burlmd.Persist.Steps.Meanwhile.{flush-LeavesEdits}
use burlmd.Persist.Steps.Settled.{Outcomes, AnswersUpdate, AnswersEdit}
use burlmd.Persist.Steps.Outcomes.{update_block-Outcomes, structural_edit-Outcomes}

abbrev flushed : Note → Note
flushed m = (flush_covering one_core id 9 no_failure m).1

abbrev first : BlockPath
first = 0 ∷ []

abbrev hi : Text
hi = codes "hi"

update_block-Outcomes_example :
    ((e : AppError) × (begin_update one_core id first hi hello_note.state ≡ err e)
      × (update_block one_core id 8 (some locked) flushed first hi hello_note
          ≡ (err e, hello_note)))
    ⊎ ((b : BlockSpan) × (s : SessionState) × (block hello_note.state.spans first ≡ some b)
        × (s.source ≡ replace_range hello_note.state.source b.source hi)
        × (let m = flushed (record hello_note { state = s }) in
            Outcomes AnswersUpdate
              (some locked)
              (update_block one_core id 8 (some locked) flushed first hi hello_note)
              s.source
              hello_note.state.revision
              m
              (record m {
                state = record (m.state) {
                  source = hello_note.state.source;
                  spans = hello_note.state.spans;
                  edit_seq = 0;
                  session_edited = false;
                  unwritten = false;
                };
              })))
update_block-Outcomes_example =
    update_block-Outcomes one_core id 8 (some locked) flushed first hi hello_note
      (flush-LeavesEdits one_core id 9 no_failure) (λ r e. cc e)

abbrev at_end : Text → SpanMap → Nodes → SpanMap → Result {0} (Text × Unit)
at_end = insert_block_edit one_core (9 ∷ []) (codes "again")

abbrev marked : Nodes → Result Nodes
marked ast = ok ast

abbrev nothing_more : DeriveFunction Unit Unit
nothing_more source spans ast r = ok r

structural_edit-Outcomes_example :
    ((e : AppError) × (plan_structural one_core id marked at_end nothing_more hello_note.state
        ≡ err e)
      × (structural_edit_with_result one_core id 8
            (some locked)
            flushed
            marked
            at_end
            nothing_more
            hello_note
          ≡ (err e, hello_note)))
    ⊎ ((planned : Planned Unit) × (s : SessionState) × (plan_structural one_core id marked at_end
            nothing_more hello_note.state
          ≡ ok planned)
        × (s.source ≡ planned.source)
        × (let m = flushed (record hello_note { state = s }) in
            Outcomes
              (AnswersEdit planned.result)
              (some locked)
              (structural_edit_with_result one_core id 8
                (some locked)
                flushed
                marked
                at_end
                nothing_more
                hello_note)
              planned.source
              hello_note.state.revision
              m
              (record m {
                state = record (m.state) {
                  source = hello_note.state.source;
                  spans = hello_note.state.spans;
                  ast = hello_note.state.ast;
                  metadata = hello_note.state.metadata;
                  edit_seq = 0;
                  session_edited = false;
                  unwritten = false;
                };
              })))
structural_edit-Outcomes_example =
    structural_edit-Outcomes one_core id 8 (some locked) flushed marked at_end nothing_more
      hello_note (flush-LeavesEdits one_core id 9 no_failure) (λ r e. cc e)
