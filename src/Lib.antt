-- ===== src/Lib.antt =====
-- The browser's side of the Vyatta web interface (src/client/Vyatta), as definitions that can be
-- run, with the theorems that make its parts correct.
--
-- The page shows two trees, one of the router's configuration and one of its operational
-- commands. A click on a node fills an editor with fields and buttons; the buttons send commands
-- to the server as XML, and the callbacks read its responses, change the marks of the tree and
-- show the answers. One global object, g_cliCmdObj, holds the running operational command and
-- the commit errors.
--
-- The files, with the code each is about (below src/client/Vyatta):
--   Base, Text: tests, lists, and the methods of strings on lists of character codes
--   Values: the values of fields and how JavaScript compares them (f_sendConfFormCommand in
--     utils/vyatta-cli-command.js, f_handleConfFieldOffFocus in js/vyatta-panels.js)
--   Replace, Escape: f_replace and the escapes for XML (utils/vyatta-utils.js)
--   CommitErrors: f_parseCommitErrors, f_updateCommitErrors, f_isCommitError
--     (utils/vyatta-cli-command.js)
--   Tree: the marks of the nodes (js/vyatta-tree.js, f_handlePropagateParentNodes)
--   Toolbar: what the buttons do (js/vyatta-panels.js, js/vyatta-tree.js)
--   Login, Tabs: which page opens, and which tab of it (js/vyatta-main.js)
--   Response: f_isResponseOK and f_parseServerCallback (utils/vyatta-cli-command.js)
--   Segment: the operational command; Command builds and sends it (f_sendOperationCliCommand),
--     Reply is its callback, Events are the timer (f_startSegmentCommand) and the clicks
--   OperView: the text that the segments append (f_updateOperCmdResponse in js/vyatta-tree.js)
--   Loader: what the tree makes of a reply (processResponse and f_jsonGenNode there)
--   Leaf: which fields a node of the configuration gets (f_HandleNodeConfigClick there)
--   Grid: the table of a field with many values (f_createEditGrid in js/vyatta-panels.js)
--   Form: what the submit button sends (f_sendConfFormCommand in utils/vyatta-cli-command.js)
--   ConfCommand: f_sendConfigCLICommand with its callback (the same file)
--   Indicators: the marks beside the fields and their classes (js/vyatta-panels.js)
--   Completion: what the end of a submission does to the form (f_handleConfFormCommandDone there,
--     f_handleFormIndicators and f_handleFieldError in js/vyatta-panels.js, js/vyatta-gridview.js)
--   Editor: the panel that holds the fields (f_addField2Panel and f_addConfiSetButton in
--     js/vyatta-panels.js)
--   Inputs: the input fields of a leaf (f_createTextField and the like there, with the handlers
--     of js/vyatta-tree.js that call them)
--   Cookies: g_cookie (utils/vyatta-cookie.js), with the browser as an argument
--   Access, HelpTips: the login and the logout, and the help tips (utils/vyatta-utils.js)
--   Expansion: what the tree does after a command (f_handleParentNodeExpansion and the functions
--     around it in utils/vyatta-cli-command.js)
--   OperEditor: the click on an operational node (f_handleNodeOperClick in js/vyatta-tree.js)
--   Hostname: the question for the name of the host (f_sendSpecialCliCommand in
--     utils/vyatta-cli-command.js) and the header that shows it (js/vyatta-main.js)
--   Titles: the title of the editor of a node (f_createConfEditorTitle in js/vyatta-panels.js)
--   FileChooser: the dialog for a file (f_showFileChooserDialog in js/vyatta-panels.js)
--   Tests: runs on concrete inputs
--
-- Form and ConfCommand send what Grid and Toolbar give and read what Response makes of the
-- answer; Response fills the buffer of CommitErrors, which Tree asks for the marks; Segment keeps
-- the segment that Response finds, and OperView shows its text. Inputs makes the fields that
-- Editor holds and Form sends; Form counts what Completion then marks. OperEditor makes the values
-- that Segment sends, and Access leaves the cookies from which Login decides which page opens.
--
-- Handlers take the state and give the state; an exception of the browser is the result none, a
-- message or dialog a value in the result. Most loops are recursion on the list they walk. Four
-- run on fuel. The loop of f_replace gets one round more than the text has characters, because
-- each round lowers the count of a character that the pattern has more often than its
-- replacement; that of f_converXMLSpecialChar gets two more, because a round that goes on finds
-- the character further behind or has one less of them. A submission of a form gets one call
-- more than there are fields, because a call that goes on has sent one. The digits of a number get
-- one round more than the number, which each round divides by ten.
--
-- The widget toolkit is not in this repository: the client's calls of it are what the
-- definitions take or give (the value of a field, the text of a node, the icon of a button), and
-- the row that the toolkit appends to a grid, the number that its field reads in a text and what
-- innerHTML gives back are arguments. The browser's cookies are a record of functions, and what is
-- documented of them a record of laws. f_replace is modelled on literals, as its callers pass
-- them. A panel of the form and the one that its node remembers may be two. Not modelled are the
-- layout of the panels, which has no state of its own, the keys and the focus of the fields, what the
-- toolkit does while it loads or expands a node, the server (src/server, src/lib), written in
-- other languages, and the packaging.
pub mod Base
pub mod Text
pub mod Replace
pub mod Escape
pub mod CommitErrors
pub mod Tree
pub mod Toolbar
pub mod Values
pub mod Login
pub mod Response
pub mod Segment
pub mod Grid
pub mod Form
pub mod Tabs
pub mod Loader
pub mod Leaf
pub mod OperView
pub mod Indicators
pub mod ConfCommand
pub mod Editor
pub mod Cookies
pub mod Access
pub mod Completion
pub mod Inputs
pub mod HelpTips
pub mod Expansion
pub mod OperEditor
pub mod FileChooser
pub mod Titles
pub mod Hostname
pub mod Tests
