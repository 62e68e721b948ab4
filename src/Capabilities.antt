-- ===== src/Capabilities.antt =====
-- server/lingxilearn/state/capabilities.py: the closed vocabulary of capabilities and its table.
-- `strip` is Python's `str.strip`, over the characters that `str.isspace` accepts.
mod Tests
use Prim.Native.Char.{code}
use Prim.Native.String.{String.[] as empty_text, String.◌∷◌ as cons_char}
use lingxi_learn.Prelude.{
  ℕ, String, Bool, true, false, ◌||◌, ◌&&◌, Option, none, some, ◌==◌, ltb, nat_beq, if◌then◌else◌,
}

pub data Capability : Type 0 where
  model_reflect graph_build graph_prerequisite review_schedule content_lesson_intro content_deck
        content_visual teach_strategy teach_explain dialog_answer dialog_negotiate dialog_converse
        dialog_interview dialog_probe plan_present assess_generate assess_grade assess_interpret
        tool_investigate meta_report meta_evaluate meta_author_skill :
      Capability

-- the members' values
unfoldable pub value : Capability → String
value model_reflect = "model.reflect"
value graph_build = "graph.build"
value graph_prerequisite = "graph.prerequisite"
value review_schedule = "review.schedule"
value content_lesson_intro = "content.lesson_intro"
value content_deck = "content.deck"
value content_visual = "content.visual"
value teach_strategy = "teach.strategy"
value teach_explain = "teach.explain"
value dialog_answer = "dialog.answer"
value dialog_negotiate = "dialog.negotiate"
value dialog_converse = "dialog.converse"
value dialog_interview = "dialog.interview"
value dialog_probe = "dialog.probe"
value plan_present = "plan.present"
value assess_generate = "assess.generate"
value assess_grade = "assess.grade"
value assess_interpret = "assess.interpret"
value tool_investigate = "tool.investigate"
value meta_report = "meta.report"
value meta_evaluate = "meta.evaluate"
value meta_author_skill = "meta.author_skill"

pub record CapabilityInfo : Type 0 where
  pub label : String
  pub learner_facing : Bool
  pub heavy_artifact : Bool
  pub irreversible : Bool
  pub conversational : Bool
  pub opening_conversation : Bool
  pub turn_complete : Bool

abbrev capability_info : String → Bool → Bool → Bool → Bool → Bool → Bool → CapabilityInfo
capability_info label facing heavy irreversible talks opening turn = record {
  label = label;
  learner_facing = facing;
  heavy_artifact = heavy;
  irreversible = irreversible;
  conversational = talks;
  opening_conversation = opening;
  turn_complete = turn;
}

-- CAPABILITY_INFO
unfoldable pub info : Capability → CapabilityInfo
info model_reflect = capability_info "整理学习状态" false false false false false false
info graph_build = capability_info "构建知识图谱" false false true false false false
info graph_prerequisite = capability_info "分析前置知识" false false false false false false
info review_schedule = capability_info "安排复习" false false false false false false
info content_lesson_intro = capability_info "生成课程引入" true true false false false false
info content_deck = capability_info "生成讲义课件" true true false false false false
info content_visual = capability_info "生成可视化讲解" true true false false false false
info teach_strategy = capability_info "选择教学策略" true false false false false false
info teach_explain = capability_info "针对性讲解" true false false false false true
info dialog_answer = capability_info "回答追问" true false false false false true
info dialog_negotiate = capability_info "与学习者协商" true false false false false false
info dialog_converse = capability_info "回应你的消息" true false false true false true
info dialog_interview = capability_info "了解你的基础" true false false true true true
info dialog_probe = capability_info "向你确认理解" true false false false false true
info plan_present = capability_info "更新执行计划" true false false false false false
info assess_generate = capability_info "出题检测" true false false false false false
info assess_grade = capability_info "判分" false false false false false false
info assess_interpret = capability_info "解读作答证据" false false false false false false
info tool_investigate = capability_info "用工具核查" false false false false false false
info meta_report = capability_info "生成学习报告" true false false false false false
info meta_evaluate = capability_info "评测技能" false false false false false false
info meta_author_skill = capability_info "起草新能力" false false true false false false

-- `str.isspace` on one character, by its code point
unfoldable pub is_space : ℕ → Bool
is_space n =
    (ltb 8 n && ltb n 14)
    || (ltb 27 n && ltb n 33)
    || nat_beq n 133
    || nat_beq n 160
    || nat_beq n 5760
    || (ltb 8191 n && ltb n 8203)
    || nat_beq n 8232
    || nat_beq n 8233
    || nat_beq n 8239
    || nat_beq n 8287
    || nat_beq n 12288

unfoldable pub strip_left : String → String
strip_left empty_text = empty_text
strip_left (cons_char c s) = if is_space (code c) then strip_left s else cons_char c s

unfoldable pub strip_right : String → String
strip_right empty_text = empty_text
strip_right (cons_char c s) =
    let rest = strip_right s in if is_space (code c) && rest == "" then "" else cons_char c rest

unfoldable pub strip : String → String
strip s = strip_right (strip_left s)

-- `Capability(text)`: `none` is the ValueError of the enum.
unfoldable pub of_value : String → Option Capability
of_value s =
    if s == "model.reflect"
    then some model_reflect
    else if s == "graph.build"
    then some graph_build
    else if s == "graph.prerequisite"
    then some graph_prerequisite
    else if s == "review.schedule"
    then some review_schedule
    else if s == "content.lesson_intro"
    then some content_lesson_intro
    else if s == "content.deck"
    then some content_deck
    else if s == "content.visual"
    then some content_visual
    else if s == "teach.strategy"
    then some teach_strategy
    else if s == "teach.explain"
    then some teach_explain
    else if s == "dialog.answer"
    then some dialog_answer
    else if s == "dialog.negotiate"
    then some dialog_negotiate
    else if s == "dialog.converse"
    then some dialog_converse
    else if s == "dialog.interview"
    then some dialog_interview
    else if s == "dialog.probe"
    then some dialog_probe
    else if s == "plan.present"
    then some plan_present
    else if s == "assess.generate"
    then some assess_generate
    else if s == "assess.grade"
    then some assess_grade
    else if s == "assess.interpret"
    then some assess_interpret
    else if s == "tool.investigate"
    then some tool_investigate
    else if s == "meta.report"
    then some meta_report
    else if s == "meta.evaluate"
    then some meta_evaluate
    else if s == "meta.author_skill"
    then some meta_author_skill
    else none

-- `none` is UnknownCapability.
unfoldable pub parse : String → Option Capability
parse s = of_value (strip s)
