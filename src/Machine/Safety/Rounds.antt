-- ===== src/Machine/Safety/Rounds.antt =====
-- src/machine.rs: a round of each state fits its state.
pub mod Text
pub mod TagStarts
pub mod EndTags
pub mod ScriptEndTags
pub mod ScriptEscaped
pub mod ScriptEscapedTags
pub mod ScriptDouble
pub mod ScriptDoubleEnds
pub mod Attributes
pub mod AttributeValues
pub mod Comments
pub mod CommentEnds
pub mod Doctypes
pub mod PublicIds
pub mod PublicIdEnds
pub mod SystemIds
pub mod SystemIdEnds
pub mod Cdata
pub mod CharRefs
pub mod CharRefEnds
