-- ===== src/Lib.antt =====
-- Verification library of the collab-notes web client (app/web/src), a fork of the memos client.
--
-- The client keeps what the server answers in stores (app/web/src/store), which the components read and
-- call: the memo list reads the memo store and lays the memos out in columns, the filters of the list
-- stand in the filter store and in the URL, and the memo editor loads a memo through the memo store,
-- uploads files, and saves. The parts that are modelled:
--
--   Api          the messages of app/web/src/types/proto/api/v1 that the parts exchange, with the fields
--                that the modelled code reads or writes
--   Store/Memo   app/web/src/store/memo.ts: the memos by name and the one current list request
--   Store/MemoFilter
--                app/web/src/store/memoFilter.ts, and the tag click of
--                app/web/src/components/TagTree.tsx
--   Store/User   app/web/src/store/user.ts: the users by name, inboxes, statistics, tag counts
--                and settings
--   Store/Workspace
--                app/web/src/store/workspace.ts: the settings, the locale and the theme
--   Store/Attachment
--                app/web/src/store/attachment.ts: the attachments by name
--   Store/View   app/web/src/store/view.ts: the settings of the view and their copy in the browser
--   Utils        app/web/src/i18n.ts and app/web/src/utils/i18n.ts (Utils/Language: locales and the nearest
--                language), app/web/src/utils/memo.ts (Utils/Visibility) and
--                app/web/src/utils/attachment.ts (Utils/AttachmentType)
--   Hooks        app/web/src/hooks/useDialog.ts
--   TagTree      app/web/src/components/TagTree.tsx: the tree made of the tags and their amounts
--   Masonry      app/web/src/components/MasonryView/MasonryView.tsx: the distribution of memos to
--                columns, and the component's state (Masonry/View)
--   MemoEditor   app/web/src/components/MemoEditor/index.tsx: the state and the handlers, the save
--                (MemoEditor/Save), the upload of files (MemoEditor/Upload), and the keys and pastes
--                (MemoEditor/Keys), which act on Textarea
--   Textarea     app/web/src/components/MemoEditor/Editor: the actions on the textarea (index.tsx), the words
--                around the caret (Textarea/Words) and their completion (Textarea/Suggestions:
--                TagSuggestions.tsx, CommandSuggestions.tsx), the Enter key (Textarea/Enter), the
--                Markdown shortcuts of app/web/src/components/MemoEditor/handlers.ts
--                (Textarea/Shortcuts) and the menu of
--                app/web/src/components/MemoEditor/ActionButton/MarkdownMenu.tsx (Textarea/Menu)
--   PagedMemoList
--                app/web/src/components/PagedMemoList/PagedMemoList.tsx: loading page by page, on top of
--                Store/Memo
--   Pages        app/web/src/pages: the filters and the order of the memo lists (Home.tsx, Archived.tsx,
--                Explore.tsx, UserProfile.tsx), and Attachments.tsx (Pages/Attachments)
--   Graph        app/web/src/components/MemoRelationForceGraph/utils.ts
--   Settings     app/web/src/components/Settings/StorageSection.tsx: the form of the storage setting
--   Calendar     app/web/src/components/ActivityCalendar/ActivityCalendar.tsx: the cells of a month,
--                and what they show (Calendar/View)
--   Proto        app/web/src/types/proto: the generated codecs, a module for each message and enum in a
--                directory for each service file. Proto/Loop is the loop that every `decode` has, with the
--                `switch` of the message as its argument; Proto/Fields, Proto/Kinds and Proto/Defaults are
--                the fields, Proto/Google the timestamps and field masks; Proto/Maps the
--                objects with keys; Proto/MemoDecoding, Proto/Settings and Proto/Stats state what decoding does
--   Base         helpers: texts, lists, dictionaries, `split` and `join`, and lodash's `uniqBy`
--
-- Names are those of the source in snake case (`fetchMemos` is `begin_fetch` up to its `await` and
-- `end_fetch` from there). State is passed explicitly. A call that awaits is split at the `await`: the
-- first part acts on the state of the call, the second on the state when the reply is there, and what
-- the service replies is an argument. In Store/Memo such steps are events, and a run is any list of
-- them, so that every interleaving of calls and replies is one; a reply names the call it answers.
-- The handlers of the editor close over the state of their render: the save takes both the state of
-- the click and the state when the reply is there.
--
-- The user map of Store/User is a heap of objects, since a call can keep the one it has read before its
-- `await`; elsewhere the code builds a new object from the present one, and a map is a value.
--
-- Texts are lists of UTF-16 code units. A plain object that serves as a dictionary is the list of its
-- entries in the order of `Object.values`. An absent text or date is the empty text or `none` as the
-- code tests it; a `Date` is its milliseconds. Heights and widths are whole numbers, as `offsetHeight`
-- gives them. What lodash's `uniqueId` returns is an argument of the step that calls it.
-- Parameters with laws stand for code outside of the repository: `uniqBy` (Base/UniqBy), `orderBy`
-- (Utils/Language), `isEqual` (MemoEditor, Settings), `encodeURIComponent` and `decodeURIComponent`
-- (Store/MemoFilter), `BinaryWriter` and `BinaryReader` (Proto/Wire: the bytes of a value, and that the
-- reader takes them off again), `JSON` (Store/View), the browser's textarea (the record `Dom` of Textarea), what
-- `Date` and `dayjs` answer (Calendar, Pages), and the services.
-- Loops go over lists or count the rounds that the code computes, but for the loop of `decode`, which runs
-- on fuel: the bytes up to the end are enough, since a round reads a tag of at least one byte
-- (Proto/Loop). A decoder that throws returns nothing.
--
-- Not modelled: rendering and styling, the router, translated texts, the gRPC client, the codecs of the
-- markdown nodes (an argument of a memo's codec) and of the other requests, the generated descriptors,
-- `create` and `fromPartial`, the other components, and the server in Go.
pub mod Base
pub mod Api
pub mod Utils
pub mod Hooks
pub mod Store
pub mod Masonry
pub mod TagTree
pub mod Textarea
pub mod MemoEditor
pub mod PagedMemoList
pub mod Pages
pub mod Graph
pub mod Calendar
pub mod Settings
pub mod Proto
